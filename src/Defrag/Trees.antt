-- ===== src/Defrag/Trees.antt =====
-- The loops over pointers of hw6/defrag.c move the trees below them.
use opearting_system.Base.{
  ℕ, zero, suc, ◌+◌, ◌≤◌, ◌<◌, ◌≡◌, ◌≢◌, refl, arith, Bool, true, false, List, [], some, ◌||◌, leb,
  ltb,
}
use opearting_system.Base.Int.{ℤ, pos, ◌≤ℤ◌, leb_ℤ}
use opearting_system.Defrag.Image.{Disk, Copying, Cmd, memcpy, store}
use opearting_system.Defrag.Copy.{
  block_at, copy_block, renumber, move_index, data_loop, index_loop, of_whole, of_dest,
}
use opearting_system.Defrag.Blocks.{moved}
use opearting_system.Defrag.Forest.{Out, over, end_of_row}

module _ (d : Disk) where
  -- Where a loop reads its pointers: in the input, or in the output.
  abbrev pub read_at : Bool → ℕ → Cmd ℤ
  read_at true = of_whole d
  read_at false = of_dest d

  -- The loop over the roots of trees with `l` levels of blocks of pointers.
  abbrev pub loop : Bool → (l k slot : ℕ) → ℤ → Cmd ℤ
  loop in_whole zero k slot z = data_loop d k slot z
  loop in_whole (suc l) k slot z = index_loop d (read_at in_whole) (loop false l d.num_int) k slot z

  pub read_lem :
      (in_whole : Bool) (a slot : ℕ) (s : Copying)
      → (in_whole ≡ true → a ≡ slot)
      → s.dest slot ≡ d.whole a
      → read_at in_whole slot s ≡ some (d.whole a, s)
  read_lem true a slot s same e = rw (same refl) refl
  read_lem false a slot s same e = rw e refl

  -- The state behind the move of a block of pointers.
  abbrev pub index_moved : Copying → (slot source : ℕ) → Copying
  index_moved s slot source = record (moved d s slot source) { data_file = s.data_file }

  pub move_index_lem :
      (s : Copying) (slot source : ℕ)
      → block_at d source + d.num_int ≤ d.file_size
      → block_at d s.block_index + d.num_int ≤ d.file_size
      → slot < block_at d s.block_index
      → move_index d slot (pos source) s
        ≡ some (block_at d s.block_index, index_moved s slot source)
  unfolding move_index copy_block renumber memcpy store
  move_index_lem s slot source in_source in_dest before =
      let a : leb (block_at d source + d.num_int) d.file_size ≡ true = ground arith in
      let b : leb (block_at d s.block_index + d.num_int) d.file_size ≡ true = ground arith in
      let c : ltb slot d.file_size ≡ true = ground arith in simp (a, b, c)

  -- A row of pointers of the output, which are those from `a` on of the input, and room for `c` blocks.
  pub record Row (in_whole : Bool) (s : Copying) (slot a k c : ℕ) (z : ℤ) : Type 0 where
    pub same_place : in_whole ≡ true → a ≡ slot
    pub same : (j : ℕ) → j < k → s.dest (slot + j) ≡ d.whole (a + j)
    pub in_front : slot + k ≤ block_at d s.block_index
    pub in_dest : block_at d (s.block_index + c) ≤ d.file_size
    pub sound : s.finished ≡ true → z ≤ℤ pos 0

  -- The trees have been moved, and nothing else in front of them or behind them has changed.
  pub record Planted (s t : Copying) (l slot k c : ℕ) (z y : ℤ) (xs : List ℕ) (e : Bool)
      : Type 0 where
    pub index : t.block_index ≡ s.block_index + c
    pub trees : Out d t.dest l slot k s.block_index t.block_index z y xs
    pub kept :
        (a : ℕ)
        → a < block_at d s.block_index
        → ((j : ℕ) → j < k → a ≢ slot + j)
        → t.dest a ≡ s.dest a
    pub beyond : (a : ℕ) → block_at d t.block_index ≤ a → t.dest a ≡ s.dest a
    pub sound : t.finished ≡ true → y ≤ℤ pos 0
    pub told : t.finished ≡ s.finished || e

  -- What the loop does.
  pub record Moves (in_whole : Bool) (s : Copying) (l slot k c : ℕ) (z y : ℤ) (xs : List ℕ)
      (e : Bool) : Type 0 where
    pub t : Copying
    pub runs : loop in_whole l k slot z s ≡ some (y, t)
    pub planted : Planted s t l slot k c z y xs e

  nothing-Planted :
      (s : Copying) (l slot k : ℕ) (z : ℤ) (b e : Bool)
      → Out d s.dest l slot k s.block_index s.block_index z z []
      → (b ≡ true → z ≤ℤ pos 0)
      → b ≡ s.finished || e
      → Planted s (record s { finished = b }) l slot k 0 z z [] e
  nothing-Planted s l slot k z b e o sound told = record {
    index = omega arith;
    trees = o;
    kept = λ a before ne. refl;
    beyond = λ a behind. refl;
    sound = sound;
    told = told;
  }

  or_true : (b : Bool) → true ≡ b || true
  or_true true = refl
  or_true false = refl

  or_false : (b : Bool) → b ≡ b || false
  or_false true = refl
  or_false false = refl

  pub over-Moves :
      (in_whole : Bool) (s : Copying) (l slot k : ℕ) (z : ℤ)
      → z ≤ℤ pos 0
      → Moves in_whole s l slot (suc k) 0 z z [] true
  unfolding data_loop index_loop
  over-Moves in_whole s zero slot k z le =
      let is_over : leb_ℤ z (pos 0) ≡ true = ground arith in
      record {
        t = record s { finished = true };
        runs = simp is_over;
        planted =
            nothing-Planted s zero slot (suc k) z true true (over le) (λ _. le)
              (or_true s.finished);
      }
  over-Moves in_whole s (suc l) slot k z le =
      let is_over : leb_ℤ z (pos 0) ≡ true = ground arith in
      record {
        t = record s { finished = true };
        runs = simp is_over;
        planted =
            nothing-Planted s (suc l) slot (suc k) z true true (over le) (λ _. le)
              (or_true s.finished);
      }

  pub end-Moves :
      (in_whole : Bool) (s : Copying) (l slot : ℕ) (z : ℤ)
      → (s.finished ≡ true → z ≤ℤ pos 0)
      → Moves in_whole s l slot 0 0 z z [] false
  unfolding data_loop index_loop
  end-Moves in_whole s zero slot z sound = record {
    t = s;
    runs = refl;
    planted =
        nothing-Planted s zero slot 0 z s.finished false end_of_row sound (or_false s.finished);
  }
  end-Moves in_whole s (suc l) slot z sound = record {
    t = s;
    runs = refl;
    planted =
        nothing-Planted s (suc l) slot 0 z s.finished false end_of_row sound (or_false s.finished);
  }
