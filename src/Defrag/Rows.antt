-- ===== src/Defrag/Rows.antt =====
-- The rows of pointers of an inode, one after another, in hw6/defrag.c.
use opearting_system.Base.{
  ℕ, ◌+◌, ◌≤◌, ◌≡◌, refl, ap, ◌∙◌, arith, Bool, true, false, List, some, ◌||◌,
}
use opearting_system.Base.Int.{ℤ}
use opearting_system.Defrag.Image.{Disk, Copying, dblocks, inode_size}
use opearting_system.Defrag.Copy.{block_at, move_file}
use opearting_system.Defrag.Blocks.{block_at_mono}
use opearting_system.Defrag.Forest.{In}
use opearting_system.Defrag.Files.{OutFile, Stage, Later, Later-trans, Served, serve}

module _ (d : Disk) (curr : ℕ) where
  -- A file that is written out whole.
  pub record FileMoved (s : Copying) (z : ℤ) (c : ℕ) (xs : List ℕ) : Type 0 where
    pub rest : ℤ
    pub t : Copying
    pub runs : move_file d curr z s ≡ some (rest, t)
    pub index : t.block_index ≡ s.block_index + c
    pub file : OutFile d curr z t.dest s.block_index t.block_index xs
    pub later : Later d curr (curr + dblocks) s t
    pub told : t.finished ≡ true

  -- `n` blocks of the file have been moved, and the pointers from `top` on are still to be followed.
  pub record Before (s : Copying) (top n : ℕ) (u : Copying) : Type 0 where
    pub stage : Stage d curr top u
    pub later : Later d curr (curr + dblocks) s u
    pub index : u.block_index ≡ s.block_index + n
    pub unfinished : u.finished ≡ false

  abbrev pub begun : Copying → Copying
  begun s = record s { finished = false }

  pub begun-Before :
      (s : Copying) → Stage d curr (curr + dblocks) s → Before s (curr + dblocks) 0 (begun s)
  begun-Before s st = record {
    stage = record { same = st.same; in_front = st.in_front };
    later = record { on = omega arith; kept = λ a lt side. refl; beyond = λ a behind. refl };
    index = omega arith;
    unfinished = refl;
  }

  -- A row has been served, behind `n` blocks.
  pub record RowServed (s u : Copying) (n l slot k c : ℕ) (z y : ℤ) (xs : List ℕ) (e : Bool)
      : Type 0 where
    pub served : Served d curr l slot k c z y xs e u
    pub later : Later d curr (curr + dblocks) s served.moves.t
    pub index : served.moves.t.block_index ≡ s.block_index + (n + c)
    pub told : served.moves.t.finished ≡ e

  pub go_on :
      {l slot k c : ℕ} {z y : ℤ} {xs : List ℕ} {e : Bool} (s u : Copying) (top n total : ℕ)
      → Before s top n u
      → In d l slot k z y c xs e
      → curr + dblocks ≤ top
      → top ≤ slot
      → slot + k ≤ curr + inode_size
      → n + c ≤ total
      → block_at d (s.block_index + total) ≤ d.file_size
      → RowServed s u n l slot k c z y xs e
  go_on {slot} {c} {e} s u top n total b i low at_top fits le room =
      let m =
        serve d curr top u i b.stage at_top fits
          (omega (
            arith,
            room,
            block_at_mono d (u.block_index + c) (s.block_index + total) (omega (arith, b.index)),
          ))
          (λ f. let g = b.unfinished in cc) in
      record {
        served = m;
        later = Later-trans d curr (omega arith) b.later m.later;
        index = omega (arith, b.index, m.moves.planted.index);
        told = m.moves.planted.told ∙ ap (λ v. v || e) b.unfinished;
      }

  pub RowServed-Before :
      (s u : Copying) (n l slot k c : ℕ) (z y : ℤ) (xs : List ℕ)
      → (m : RowServed s u n l slot k c z y xs false) → Before s (slot + k) (n + c) m.served.moves.t
  RowServed-Before s u n l slot k c z y xs m = record {
    stage = m.served.stage;
    later = m.later;
    index = m.index;
    unfinished = m.told;
  }
