-- ===== src/Defrag/Moving.antt =====
-- The induction by which the loops of hw6/defrag.c move whole trees.
use opearting_system.Base.{
  ℕ, suc, ◌+◌, ◌*◌, ◌≤◌, ◌<◌, ◌≡◌, ◌≢◌, refl, ap, ◌∙◌, arith, Bool, true, false, List, ◌∷◌, ◌++◌,
  some, ◌||◌,
}
use opearting_system.Base.Int.{ℤ, pos, ◌-ℤ◌, ◌≤ℤ◌, ◌<ℤ◌, leb_ℤ}
use opearting_system.Defrag.Image.{Disk, Copying}
use opearting_system.Defrag.Copy.{block_at, move_data, move_index, data_loop, index_loop}
use opearting_system.Defrag.Blocks.{
  block_at-suc, block_at_mono, first_fits, moved, move_data_lem, moved_elsewhere, moved_beyond,
  moved_slot, moved_copy,
}
use opearting_system.Defrag.Forest.{In, over, end_of_row, data_block, index_block, Out-kept}
use opearting_system.Defrag.Trees.{
  read_at, loop, read_lem, index_moved, move_index_lem, Row, Planted, Moves, over-Moves, end-Moves,
}

module _ (d : Disk) where
  -- A data block, and the trees behind it.
  module _ (s : Copying) (slot k c x : ℕ) (z y : ℤ) (xs : List ℕ) (e : Bool) (t : Copying)
      (more : pos 0 <ℤ z) (front : slot + suc k ≤ block_at d s.block_index)
      (m : Planted d (moved d s slot x) t 0 (slot + 1) k c (z -ℤ pos (4 * d.num_int)) y xs e) where
    abbrev next : block_at d (s.block_index + 1) ≡ block_at d s.block_index + d.num_int
    next = block_at-suc d s.block_index

    data-Planted : Planted d s t 0 slot (suc k) (suc c) z y (x ∷ xs) e
    data-Planted = record {
      index = omega (arith, m.index);
      trees =
          data_block more
            (m.kept slot (omega (arith, next)) (λ j lt e. omega (arith, e)) ∙ moved_slot d s slot x)
            (λ w lt.
              m.kept (block_at d s.block_index + w) (omega (arith, next))
                (λ j l e. omega (arith, e))
              ∙ moved_copy d s slot x w (omega arith) lt)
            m.trees;
      kept = λ a before ne.
          m.kept a (omega (arith, next)) (λ j lt e. ne (j + 1) (omega arith) (omega (arith, e)))
          ∙ moved_elsewhere d s slot x a before (λ e. ne 0 (omega arith) (omega (arith, e)));
      beyond = λ a behind.
          m.beyond a behind
          ∙ moved_beyond d s slot x a (omega arith) (
              omega (
                arith,
                next,
                block_at_mono d (s.block_index + 1) t.block_index (omega (arith, m.index)),
              ));
      sound = m.sound;
      told = m.told;
    }

  or_assoc : (a b c : Bool) → (a || b) || c ≡ a || (b || c)
  or_assoc true b c = refl
  or_assoc false b c = refl

  -- A block of pointers with the trees below it, and those behind it.
  module _ (s : Copying) (l slot k b c p : ℕ) (z y x : ℤ) (xs ys : List ℕ) (e f : Bool)
      (s2 t : Copying) (more : pos 0 <ℤ z) (front : slot + suc k ≤ block_at d s.block_index)
      (m : Planted d (index_moved d s slot p) s2 l (block_at d s.block_index) d.num_int b z y xs e)
      (q : Planted d s2 t (suc l) (slot + 1) k c y x ys f) where
    abbrev after : block_at d (s.block_index + 1) ≡ block_at d s.block_index + d.num_int
    after = block_at-suc d s.block_index

    up_to : block_at d (s.block_index + 1) ≤ block_at d s2.block_index
    up_to = block_at_mono d (s.block_index + 1) s2.block_index (omega (arith, m.index))

    index-kept :
        (a : ℕ)
        → a < block_at d s.block_index
        → ((j : ℕ) → j < suc k → a ≢ slot + j)
        → t.dest a ≡ s.dest a
    index-kept a before ne =
        q.kept a (omega (arith, up_to, after))
          (λ j lt e. ne (j + 1) (omega arith) (omega (arith, e)))
        ∙ m.kept a (omega (arith, after)) (λ j lt e. omega (arith, e))
        ∙ moved_elsewhere d s slot p a before (λ e. ne 0 (omega arith) (omega (arith, e)))

    root_kept : t.dest slot ≡ pos s.block_index
    root_kept =
        q.kept slot (omega (arith, up_to, after)) (λ j lt e. omega (arith, e))
        ∙ m.kept slot (omega (arith, after)) (λ j lt e. omega (arith, e))
        ∙ moved_slot d s slot p

    below_kept :
        (a : ℕ)
        → block_at d s.block_index ≤ a
        → a < block_at d s2.block_index
        → t.dest a ≡ s2.dest a
    below_kept a h lt = q.kept a lt (λ j l e. omega (arith, e))

    index-Planted : Planted d s t (suc l) slot (suc k) (suc (b + c)) z x (xs ++ ys) (e || f)
    index-Planted = record {
      index = omega (arith, m.index, q.index);
      trees =
          index_block more root_kept
            (Out-kept t.dest m.trees
              (λ j lt.
                below_kept (block_at d s.block_index + j) (omega arith)
                  (omega (arith, up_to, after)))
              (λ a h lt. below_kept a (omega (arith, h, after)) lt))
            q.trees;
      kept = index-kept;
      beyond = λ a behind.
          q.beyond a behind
          ∙ m.beyond a
              (omega (arith, block_at_mono d s2.block_index t.block_index (omega (arith, q.index))))
          ∙ moved_beyond d s slot p a (omega arith) (
              omega (
                arith,
                up_to,
                after,
                block_at_mono d s2.block_index t.block_index (omega (arith, q.index)),
              ));
      sound = q.sound;
      told = q.told ∙ ap (λ v. v || f) m.told ∙ or_assoc s.finished e f;
    }

  -- The row that is left when the first pointer has been followed: `u` is the state then.
  later-Row :
      (in_whole : Bool) (s u : Copying) (slot a k b c n : ℕ) (z y : ℤ)
      → Row d in_whole s slot a (suc k) n z
      → u.block_index ≡ s.block_index + b
      → b + c ≤ n
      → ((j : ℕ) → j < k → u.dest (slot + suc j) ≡ s.dest (slot + suc j))
      → (u.finished ≡ true → y ≤ℤ pos 0)
      → Row d in_whole u (slot + 1) (a + 1) k c y
  later-Row in_whole s u slot a k b c n z y r index fits kept sound = record {
    same_place = λ e. omega (arith, r.same_place e);
    same = λ j lt.
        ap u.dest {x = slot + 1 + j} {y = slot + suc j} (omega arith)
        ∙ kept j lt
        ∙ r.same (suc j) (omega arith)
        ∙ ap d.whole {x = a + suc j} {y = a + 1 + j} (omega arith);
    in_front =
        omega
          (arith, r.in_front, block_at_mono d s.block_index u.block_index (omega (arith, index)));
    in_dest = omega (
      arith,
      r.in_dest,
      block_at_mono d (u.block_index + c) (s.block_index + n) (omega (arith, index)),
    );
    sound = sound;
  }

  -- The row of pointers in the copy of a block of pointers.
  below-Row :
      (in_whole : Bool) (s : Copying) (slot a k b c p : ℕ) (z : ℤ)
      → Row d in_whole s slot a (suc k) (suc (b + c)) z
      → Row d false (index_moved d s slot p) (block_at d s.block_index) (block_at d p) d.num_int b z
  below-Row in_whole s slot a k b c p z r = record {
    same_place = λ e. cc;
    same = λ j lt. moved_copy d s slot p j (omega (arith, r.in_front)) lt;
    in_front = omega (arith, block_at-suc d s.block_index);
    in_dest = omega (
      arith,
      r.in_dest,
      block_at_mono d (s.block_index + 1 + b) (s.block_index + suc (b + c)) (omega arith),
    );
    sound = r.sound;
  }

  first_pointer :
      {in_whole : Bool} {s : Copying} {slot a k c : ℕ} {z : ℤ}
      → Row d in_whole s slot a (suc k) c z
      → s.dest slot ≡ d.whole a
  first_pointer {s} {slot} {a} r =
      ap s.dest {x = slot} {y = slot + 0} (omega arith)
      ∙ r.same 0 (omega arith)
      ∙ ap d.whole {x = a + 0} {y = a} (omega arith)

  not_finished : (b : Bool) (z : ℤ) → pos 0 <ℤ z → (b ≡ true → z ≤ℤ pos 0) → b ≡ false
  not_finished true z more sound = absurd (omega (arith, more, sound refl))
  not_finished false z more sound = refl

  data_step :
      (in_whole : Bool) (s : Copying) (slot k x : ℕ) (z y : ℤ) (t : Copying)
      → pos 0 <ℤ z
      → move_data d slot s ≡ some (tt, moved d s slot x)
      → loop d in_whole 0 k (slot + 1) (z -ℤ pos (4 * d.num_int)) (moved d s slot x) ≡ some (y, t)
      → loop d in_whole 0 (suc k) slot z s ≡ some (y, t)
  unfolding data_loop
  data_step in_whole s slot k x z y t more first runs =
      let goes_on : leb_ℤ z (pos 0) ≡ false = ground arith in simp goes_on (rw first runs)

  index_step :
      (in_whole : Bool) (s : Copying) (l slot k p base : ℕ) (z y x : ℤ) (s1 s2 t : Copying)
      → pos 0 <ℤ z
      → s.finished ≡ false
      → read_at d in_whole slot s ≡ some (pos p, s)
      → move_index d slot (pos p) s ≡ some (base, s1)
      → loop d false l d.num_int base z s1 ≡ some (y, s2)
      → loop d in_whole (suc l) k (slot + 1) y s2 ≡ some (x, t)
      → loop d in_whole (suc l) (suc k) slot z s ≡ some (x, t)
  unfolding index_loop
  index_step in_whole s l slot k p base z y x s1 s2 t more unfinished reads first below behind =
      let goes_on : leb_ℤ z (pos 0) ≡ false = ground arith in
      simp (goes_on, unfinished) (rw (reads, first, below) behind)

  -- A loop over a row of pointers, which are those of the input, in front of the fresh blocks and with room
  -- for the blocks (`Row`), moves the trees below them: it ends, and
  -- in the output the row holds the same trees, their blocks numbered in order and without a gap, their
  -- data blocks copies of those of the input.
  pub In-Moves :
      {l a k : ℕ} {z y : ℤ} {c : ℕ} {xs : List ℕ} {over_at : Bool}
      → In d l a k z y c xs over_at
      → (in_whole : Bool) (s : Copying) (slot : ℕ) → Row d in_whole s slot a k c z
      → Moves d in_whole s l slot k c z y xs over_at
  In-Moves {l} {z} (over {k} le) in_whole s slot r = over-Moves d in_whole s l slot k z le
  In-Moves {l} {z} end_of_row in_whole s slot r = end-Moves d in_whole s l slot z r.sound
  In-Moves {a} {z} (data_block {k} {x} {y} {c} {xs} {e = early} more e fits i) in_whole s slot r =
      let first =
        move_data_lem d s slot x (first_pointer r ∙ e) fits
          (first_fits d s (suc c) (omega arith) r.in_dest) (omega (arith, r.in_front)) in
      let later = In-Moves i in_whole (moved d s slot x) (slot + 1) (
        later-Row in_whole s (moved d s slot x) slot a k 1 c (suc c) z (z -ℤ pos (4 * d.num_int)) r
          refl (omega arith)
          (λ j lt.
            moved_elsewhere d s slot x (slot + suc j) (omega (arith, r.in_front)) (omega arith))
          (λ e. absurd (omega (arith, more, r.sound e)))) in
      record {
        t = later.t;
        runs = data_step in_whole s slot k x z y later.t more first later.runs;
        planted = data-Planted s slot k c x z y xs early later.t more r.in_front later.planted;
      }
  In-Moves {a} {z}
        (index_block {l} {k} {p} {y} {x} {b} {c} {xs} {ys} {e = early} {f = late} more e fits i j)
        in_whole s slot r =
      let s1 = index_moved d s slot p in
      let first =
        move_index_lem d s slot p fits (first_fits d s (suc (b + c)) (omega arith) r.in_dest)
          (omega (arith, r.in_front)) in
      let m =
        In-Moves i false s1 (block_at d s.block_index) (below-Row in_whole s slot a k b c p z r) in
      let q = In-Moves j in_whole m.t (slot + 1) (
        later-Row in_whole s m.t slot a k (suc b) c (suc (b + c)) z y r
          (omega (arith, m.planted.index)) (omega arith)
          (λ n lt.
            m.planted.kept (slot + suc n) (omega (arith, r.in_front, block_at-suc d s.block_index))
              (λ o l e. omega (arith, r.in_front, e))
            ∙ moved_elsewhere d s slot p (slot + suc n) (omega (arith, r.in_front)) (omega arith))
          m.planted.sound) in
      record {
        t = q.t;
        runs =
            index_step in_whole s l slot k p (block_at d s.block_index) z y x s1 m.t q.t more
              (not_finished s.finished z more r.sound)
              (read_lem d in_whole a slot s r.same_place (first_pointer r)
                ∙ ap (λ v. some (v, s)) e)
              first m.runs q.runs;
        planted =
            index-Planted s l slot k b c p z y x xs ys early late m.t q.t more r.in_front m.planted
              q.planted;
      }
