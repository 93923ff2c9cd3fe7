-- ===== src/Defrag/Files.antt =====
-- `main` of hw6/defrag.c at one file, with all its levels of blocks of pointers.
use opearting_system.Base.{
  ℕ, ◌+◌, ◌≤◌, ◌<◌, ◌≡◌, refl, ◌∙◌, arith, Bool, true, false, List, ◌++◌, ◌⊎◌, inl, inr,
}
use opearting_system.Base.Int.{ℤ, pos, ◌≤ℤ◌, ◌<ℤ◌}
use opearting_system.Defrag.Image.{
  Image, Disk, Copying, n_dblocks, n_iblocks, dblocks, iblocks, i2block, i3block, inode_size,
}
use opearting_system.Defrag.Copy.{block_at}
use opearting_system.Defrag.Blocks.{block_at_mono}
use opearting_system.Defrag.Forest.{In, Out, Out-kept}
use opearting_system.Defrag.Trees.{Moves}
use opearting_system.Defrag.Moving.{In-Moves}

-- The file of the inode at `curr` in the input: its rows of pointers, up to the one at which nothing of
-- the file is left. A file that ends with its indirect blocks, or with its doubly or triply indirect
-- block, full has no such form.
pub data InFile (d : Disk) (curr : ℕ) (z : ℤ) : ℕ → List ℕ → Type 0 where
  direct :
      {y : ℤ} {c : ℕ} {xs : List ℕ}
      → In d 0 (curr + dblocks) n_dblocks z y c xs true
      → InFile d curr z c xs
  single :
      {y x : ℤ} {b c : ℕ} {ws xs : List ℕ}
      → In d 0 (curr + dblocks) n_dblocks z y b ws false
      → In d 1 (curr + iblocks) n_iblocks y x c xs true
      → InFile d curr z (b + c) (ws ++ xs)
  double :
      {y x w : ℤ} {a b c : ℕ} {vs ws xs : List ℕ}
      → In d 0 (curr + dblocks) n_dblocks z y a vs false
      → In d 1 (curr + iblocks) n_iblocks y x b ws false
      → pos 0 <ℤ x
      → In d 2 (curr + i2block) 1 x w c xs true
      → InFile d curr z (a + b + c) (vs ++ ws ++ xs)
  triple :
      {y x w v : ℤ} {a b c e : ℕ} {us vs ws xs : List ℕ}
      → In d 0 (curr + dblocks) n_dblocks z y a us false
      → In d 1 (curr + iblocks) n_iblocks y x b vs false
      → pos 0 <ℤ x
      → In d 2 (curr + i2block) 1 x w c ws false
      → pos 0 <ℤ w
      → In d 3 (curr + i3block) 1 w v e xs true
      → InFile d curr z (a + b + c + e) (us ++ vs ++ ws ++ xs)

-- The same file in an output, its blocks numbered from `lo` to the one before `hi` in the file's order.
pub data OutFile (d : Disk) (curr : ℕ) (z : ℤ) (m : Image) (lo hi : ℕ) : List ℕ → Type 0 where
  direct :
      {y : ℤ} {xs : List ℕ}
      → Out d m 0 (curr + dblocks) n_dblocks lo hi z y xs
      → OutFile d curr z m lo hi xs
  single :
      {y x : ℤ} {b : ℕ} {ws xs : List ℕ}
      → Out d m 0 (curr + dblocks) n_dblocks lo b z y ws
      → Out d m 1 (curr + iblocks) n_iblocks b hi y x xs
      → OutFile d curr z m lo hi (ws ++ xs)
  double :
      {y x w : ℤ} {a b : ℕ} {vs ws xs : List ℕ}
      → Out d m 0 (curr + dblocks) n_dblocks lo a z y vs
      → Out d m 1 (curr + iblocks) n_iblocks a b y x ws
      → Out d m 2 (curr + i2block) 1 b hi x w xs
      → OutFile d curr z m lo hi (vs ++ ws ++ xs)
  triple :
      {y x w v : ℤ} {a b c : ℕ} {us vs ws xs : List ℕ}
      → Out d m 0 (curr + dblocks) n_dblocks lo a z y us
      → Out d m 1 (curr + iblocks) n_iblocks a b y x vs
      → Out d m 2 (curr + i2block) 1 b c x w ws
      → Out d m 3 (curr + i3block) 1 c hi w v xs
      → OutFile d curr z m lo hi (us ++ vs ++ ws ++ xs)

module _ (d : Disk) (curr : ℕ) where
  -- The pointers of the inode from `top` on are still those of the input.
  pub record Stage (top : ℕ) (u : Copying) : Type 0 where
    pub same : (a : ℕ) → top ≤ a → a < curr + inode_size → u.dest a ≡ d.whole a
    pub in_front : curr + inode_size ≤ block_at d u.block_index

  -- From `u` to `v` only pointers from `top` on and fresh blocks have changed.
  pub record Later (top : ℕ) (u v : Copying) : Type 0 where
    pub on : u.block_index ≤ v.block_index
    pub kept :
        (a : ℕ)
        → a < block_at d u.block_index
        → (a < top) ⊎ (curr + inode_size ≤ a)
        → v.dest a ≡ u.dest a
    pub beyond : (a : ℕ) → block_at d v.block_index ≤ a → v.dest a ≡ u.dest a

  -- One row of the inode.
  pub record Served (l top k c : ℕ) (z y : ℤ) (xs : List ℕ) (e : Bool) (u : Copying) : Type 0 where
    pub moves : Moves d true u l top k c z y xs e
    pub stage : Stage (top + k) moves.t
    pub later : Later top u moves.t

  pub serve :
      {l slot k c : ℕ} {z y : ℤ} {xs : List ℕ} {e : Bool} (top : ℕ) (u : Copying)
      → In d l slot k z y c xs e
      → Stage top u
      → top ≤ slot
      → slot + k ≤ curr + inode_size
      → block_at d (u.block_index + c) ≤ d.file_size
      → (u.finished ≡ true → z ≤ℤ pos 0)
      → Served l slot k c z y xs e u
  serve {l} {slot} {k} {c} {z} {y} {xs} {e} top u i st at_top fits room sound =
      let m = In-Moves d i true u slot (record {
        same_place = λ _. refl;
        same = λ j lt. st.same (slot + j) (omega arith) (omega arith);
        in_front = omega (arith, st.in_front);
        in_dest = room;
        sound = sound;
      }) in
      let p = m.planted in
      record {
        moves = m;
        stage = record {
          same = λ a h lt.
              p.kept a (omega (arith, st.in_front)) (λ j l e. omega (arith, e))
              ∙ st.same a (omega arith) lt;
          in_front = omega (
            arith,
            st.in_front,
            block_at_mono d u.block_index m.t.block_index (omega (arith, p.index)),
          );
        };
        later = record {
          on = omega (arith, p.index);
          kept = λ a lt side. p.kept a lt (λ j l e. elim side [
            | inl before ↦ omega (arith, e)
            | inr behind ↦ omega (arith, e)
          ]);
          beyond = p.beyond;
        };
      }

  pub Later-trans :
      {top low : ℕ} {u v w : Copying} → low ≤ top → Later low u v → Later top v w → Later low u w
  Later-trans {top} {u} {v} {w} le p q = record {
    on = omega (arith, p.on, q.on);
    kept = λ a lt side.
        q.kept a (omega (arith, block_at_mono d u.block_index v.block_index p.on))
          (elim side [ inl before ↦ inl (omega arith) | inr behind ↦ inr behind ])
        ∙ p.kept a lt side;
    beyond = λ a behind.
        q.beyond a behind
        ∙ p.beyond a (omega (arith, block_at_mono d v.block_index w.block_index q.on));
  }

  pub Out-Later :
      {l slot k lo top : ℕ} {z y : ℤ} {xs : List ℕ} (u v : Copying)
      → Out d u.dest l slot k lo u.block_index z y xs
      → Later top u v
      → slot + k ≤ top
      → slot + k ≤ block_at d u.block_index
      → curr + inode_size ≤ block_at d lo
      → Out d v.dest l slot k lo u.block_index z y xs
  Out-Later {slot} u v o p fits front back =
      Out-kept v.dest o (λ j lt. p.kept (slot + j) (omega arith) (inl (omega arith)))
        (λ a h lt. p.kept a lt (inr (omega arith)))
