-- ===== src/Defrag/Levels.antt =====
-- The levels of a file, in hw6/defrag.c.
use opearting_system.Base.{
  ℕ, ◌+◌, ◌≤◌, ◌≡◌, refl, sym, ◌∙◌, arith, Bool, true, false, List, ◌++◌, Option, none, some,
}
use opearting_system.Base.Int.{ℤ, pos, ◌<ℤ◌, leb_ℤ}
use opearting_system.Defrag.Image.{
  Disk, Copying, Cmd, and_then, pure, n_dblocks, n_iblocks, dblocks, iblocks, i2block, i3block,
  inode_size,
}
use opearting_system.Defrag.Copy.{
  block_at, index_loop, move_index, move_tree, move_file, of_whole, lv2, lv3,
}
use opearting_system.Defrag.Forest.{In, Out}
use opearting_system.Defrag.Files.{
  InFile, direct, single, double, triple, Stage, Later, Later-trans, Out-Later,
}
use opearting_system.Defrag.Rows.{
  FileMoved, begun, begun-Before, RowServed, go_on, RowServed-Before,
}

and_then-pure : {A : Type 0} (r : Option (A × Copying)) → and_then r pure ≡ r
and_then-pure none = refl
and_then-pure (some (a, s)) = refl

below_alone :
    (below : ℕ → ℤ → Cmd ℤ) (z : ℤ) (r : Option (ℕ × Copying)) (x : Option (ℤ × Copying))
    → and_then r (λ base s. and_then (below base z s) pure) ≡ x
    → and_then r (λ base. below base z) ≡ x
below_alone below z none x h = h
below_alone below z (some (base, s)) x h = sym (and_then-pure (below base z s)) ∙ h

-- The code at `i2block` does what a loop over one pointer would do.
move_tree-row :
    (d : Disk) (below : ℕ → ℤ → Cmd ℤ) (slot : ℕ) (z : ℤ) (s : Copying) (x : Option (ℤ × Copying))
    → pos 0 <ℤ z
    → s.finished ≡ false
    → index_loop d (of_whole d) below 1 slot z s ≡ x
    → move_tree d below slot z s ≡ x
unfolding index_loop move_tree
move_tree-row d below slot z s x more unfinished h =
    let goes_on : leb_ℤ z (pos 0) ≡ false = ground arith in
    below_alone below z (move_index d slot (d.whole slot) s) x (simp (goes_on, unfinished) at h)

module _ (d : Disk) (curr : ℕ) where
  -- The trees of a row stay as they are while later rows are served.
  row_kept :
      {s u v : Copying} {n l slot k c top : ℕ} {z y : ℤ} {xs : List ℕ} {e : Bool}
      → (m : RowServed d curr s u n l slot k c z y xs e)
      → curr + inode_size ≤ block_at d u.block_index
      → slot + k ≤ curr + inode_size
      → slot + k ≤ top
      → Later d curr top m.served.moves.t v
      → Out d v.dest l slot k u.block_index m.served.moves.t.block_index z y xs
  row_kept {v} m st fits behind later =
      Out-Later d curr m.served.moves.t v m.served.moves.planted.trees later behind
        (omega (arith, m.served.stage.in_front)) st

  module _ (z : ℤ) (total : ℕ) (s : Copying) (st : Stage d curr (curr + dblocks) s)
      (room : block_at d (s.block_index + total) ≤ d.file_size) where
    first_row :
        (y : ℤ) (a : ℕ) (us : List ℕ) (e : Bool)
        → In d 0 (curr + dblocks) n_dblocks z y a us e
        → a ≤ total
        → RowServed d curr s (begun d curr s) 0 0 (curr + dblocks) n_dblocks a z y us e
    first_row y a us e i le =
        go_on d curr s (begun d curr s) (curr + dblocks) 0 total (begun-Before d curr s st) i
          (omega arith) (omega arith) (omega arith) (omega arith) room

    direct_file :
        (y : ℤ) (xs : List ℕ)
        → In d 0 (curr + dblocks) n_dblocks z y total xs true
        → FileMoved d curr s z total xs
    unfolding move_file
    direct_file y xs i =
        let m = first_row y total xs true i (omega arith) in
        record {
          rest = y;
          t = m.served.moves.t;
          runs = simp (m.served.moves.runs, m.told);
          index = omega (arith, m.index);
          file = direct m.served.moves.planted.trees;
          later = m.later;
          told = m.told;
        }

    single_file :
        (y x : ℤ) (a b : ℕ) (us vs : List ℕ)
        → In d 0 (curr + dblocks) n_dblocks z y a us false
        → In d 1 (curr + iblocks) n_iblocks y x b vs true
        → a + b ≡ total
        → FileMoved d curr s z total (us ++ vs)
    unfolding move_file
    single_file y x a b us vs i j e =
        let m = first_row y a us false i (omega arith) in
        let u = m.served.moves.t in
        let n =
          go_on d curr s u (curr + dblocks + n_dblocks) (0 + a) total
            (RowServed-Before d curr s (begun d curr s) 0 0 (curr + dblocks) n_dblocks a z y us m) j
            (omega arith) (omega arith) (omega arith) (omega arith) room in
        let v = n.served.moves.t in
        record {
          rest = x;
          t = v;
          runs = simp (m.served.moves.runs, m.told, n.served.moves.runs, n.told);
          index = omega (arith, n.index);
          file =
              single (row_kept m st.in_front (omega arith) (omega arith) n.served.later)
                n.served.moves.planted.trees;
          later = n.later;
          told = n.told;
        }

    double_file :
        (y x w : ℤ) (a b c : ℕ) (us vs ws : List ℕ)
        → In d 0 (curr + dblocks) n_dblocks z y a us false
        → In d 1 (curr + iblocks) n_iblocks y x b vs false
        → pos 0 <ℤ x
        → In d 2 (curr + i2block) 1 x w c ws true
        → a + b + c ≡ total
        → FileMoved d curr s z total (us ++ vs ++ ws)
    unfolding move_file
    double_file y x w a b c us vs ws i j more k e =
        let m = first_row y a us false i (omega arith) in
        let u = m.served.moves.t in
        let n =
          go_on d curr s u (curr + dblocks + n_dblocks) (0 + a) total
            (RowServed-Before d curr s (begun d curr s) 0 0 (curr + dblocks) n_dblocks a z y us m) j
            (omega arith) (omega arith) (omega arith) (omega arith) room in
        let v = n.served.moves.t in
        let o =
          go_on d curr s v (curr + iblocks + n_iblocks) (0 + a + b) total
            (RowServed-Before d curr s u (0 + a) 1 (curr + iblocks) n_iblocks b y x vs n) k
            (omega arith) (omega arith) (omega arith) (omega arith) room in
        let w' = o.served.moves.t in
        let double_run =
          move_tree-row d (lv2 d) (curr + i2block) x v (some (w, w')) more n.told
            o.served.moves.runs in
        record {
          rest = w;
          t = w';
          runs =
              simp (m.served.moves.runs, m.told, n.served.moves.runs, n.told, double_run, o.told);
          index = omega (arith, o.index);
          file =
              double
                (row_kept m st.in_front (omega arith) (omega arith)
                  (Later-trans d curr (omega arith) n.served.later o.served.later))
                (row_kept n m.served.stage.in_front (omega arith) (omega arith) o.served.later)
                o.served.moves.planted.trees;
          later = o.later;
          told = o.told;
        }

    triple_file :
        (y x w r : ℤ) (a b c f : ℕ) (us vs ws xs : List ℕ)
        → In d 0 (curr + dblocks) n_dblocks z y a us false
        → In d 1 (curr + iblocks) n_iblocks y x b vs false
        → pos 0 <ℤ x
        → In d 2 (curr + i2block) 1 x w c ws false
        → pos 0 <ℤ w
        → In d 3 (curr + i3block) 1 w r f xs true
        → a + b + c + f ≡ total
        → FileMoved d curr s z total (us ++ vs ++ ws ++ xs)
    unfolding move_file
    triple_file y x w r a b c f us vs ws xs i j more k again l e =
        let m = first_row y a us false i (omega arith) in
        let u = m.served.moves.t in
        let n =
          go_on d curr s u (curr + dblocks + n_dblocks) (0 + a) total
            (RowServed-Before d curr s (begun d curr s) 0 0 (curr + dblocks) n_dblocks a z y us m) j
            (omega arith) (omega arith) (omega arith) (omega arith) room in
        let v = n.served.moves.t in
        let o =
          go_on d curr s v (curr + iblocks + n_iblocks) (0 + a + b) total
            (RowServed-Before d curr s u (0 + a) 1 (curr + iblocks) n_iblocks b y x vs n) k
            (omega arith) (omega arith) (omega arith) (omega arith) room in
        let w' = o.served.moves.t in
        let double_run =
          move_tree-row d (lv2 d) (curr + i2block) x v (some (w, w')) more n.told
            o.served.moves.runs in
        let q =
          go_on d curr s w' (curr + i2block + 1) (0 + a + b + c) total
            (RowServed-Before d curr s v (0 + a + b) 2 (curr + i2block) 1 c x w ws o) l
            (omega arith) (omega arith) (omega arith) (omega arith) room in
        let t = q.served.moves.t in
        let triple_run =
          move_tree-row d (lv3 d) (curr + i3block) w w' (some (r, t)) again o.told
            q.served.moves.runs in
        record {
          rest = r;
          t = t;
          runs = simp (
            m.served.moves.runs, m.told, n.served.moves.runs, n.told, double_run, o.told,
            triple_run,
          );
          index = omega (arith, q.index);
          file =
              triple
                (row_kept m st.in_front (omega arith) (omega arith) (
                  Later-trans d curr (omega arith) n.served.later
                    (Later-trans d curr (omega arith) o.served.later q.served.later)))
                (row_kept n m.served.stage.in_front (omega arith) (omega arith)
                  (Later-trans d curr (omega arith) o.served.later q.served.later))
                (row_kept o n.served.stage.in_front (omega arith) (omega arith) q.served.later)
                q.served.moves.planted.trees;
          later = q.later;
          told = q.told;
        }

  -- A file that does not end with its indirect blocks, or its doubly or triply indirect block, full
  -- (`InFile`) is moved whole. If its blocks are found in the input and the fresh blocks have room, then
  -- the code ends; the file takes as many blocks of the output as it has; they are numbered in the
  -- file's order and without a gap; the pointers lead to them as they led to the blocks of the input,
  -- whose contents the data blocks have; and nothing else in front of them changes.
  pub move_file-FileMoved :
      (z : ℤ) (c : ℕ) (xs : List ℕ) (s : Copying)
      → InFile d curr z c xs
      → Stage d curr (curr + dblocks) s
      → block_at d (s.block_index + c) ≤ d.file_size
      → FileMoved d curr s z c xs
  move_file-FileMoved z c xs s (direct {y} i) st room = direct_file z c s st room y xs i
  move_file-FileMoved z _ _ s (single {y} {x} {b} {c} {ws} {xs} i j) st room =
      single_file z (b + c) s st room y x b c ws xs i j refl
  move_file-FileMoved z _ _ s (double {y} {x} {w} {a} {b} {c} {vs} {ws} {xs} i j more k) st room =
      double_file z (a + b + c) s st room y x w a b c vs ws xs i j more k refl
  move_file-FileMoved z _ _ s
        (triple {y} {x} {w} {v} {a} {b} {c} {e} {us} {vs} {ws} {xs} i j more k again l) st room =
      triple_file z (a + b + c + e) s st room y x w v a b c e us vs ws xs i j more k again l refl
