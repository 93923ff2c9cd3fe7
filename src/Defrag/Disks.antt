-- ===== src/Defrag/Disks.antt =====
-- The loop over the inodes of hw6/defrag.c.
use opearting_system.Base.{
  ℕ, suc, ◌+◌, ◌-◌, ◌≤◌, ◌<◌, ◌≡◌, arith, true, false, List, [], ◌∷◌, some, ◌⊎◌, inl, inr, leb, ltb,
}
use opearting_system.Base.Int.{ℤ, pos, eqb_ℤ}
use opearting_system.Defrag.Image.{
  Image, Disk, Copying, overlay, memcpy, nlink, size, dblocks, inode_size,
}
use opearting_system.Defrag.Copy.{block_at}
use opearting_system.Defrag.Blocks.{block_at_mono}
use opearting_system.Defrag.Forest.{Out-kept, Out-le}
use opearting_system.Defrag.Files.{InFile, OutFile, direct, single, double, triple}

-- `n` inodes from `curr` on in the input, with the data blocks of each file; in all they take `c` blocks.
pub data InDisk (d : Disk) : (n curr c : ℕ) → List (List ℕ) → Type 0 where
  no_inode : {curr : ℕ} → InDisk d 0 curr 0 []
  unused :
      {n curr c : ℕ} {files : List (List ℕ)}
      → eqb_ℤ (d.whole (curr + nlink)) (pos 0) ≡ true
      → InDisk d n (curr + inode_size) c files
      → InDisk d (suc n) curr c ([] ∷ files)
  used :
      {n curr b c : ℕ} {xs : List ℕ} {files : List (List ℕ)}
      → eqb_ℤ (d.whole (curr + nlink)) (pos 0) ≡ false
      → InFile d curr (d.whole (curr + size)) b xs
      → InDisk d n (curr + inode_size) c files
      → InDisk d (suc n) curr (b + c) (xs ∷ files)

-- The words of an inode in front of `dblocks`, or of a whole unused inode, are those of the input.
abbrev pub Same : Disk → Image → (from n : ℕ) → Type 0
Same d m from n = (j : ℕ) → j < n → m (from + j) ≡ d.whole (from + j)

-- The same inodes in an output: each file in its form, the blocks of the files one behind another in the
-- order of the inodes.
pub data OutDisk (d : Disk) (m : Image) : (n curr lo hi : ℕ) → List (List ℕ) → Type 0 where
  no_inode : {curr lo : ℕ} → OutDisk d m 0 curr lo lo []
  unused :
      {n curr lo hi : ℕ} {files : List (List ℕ)}
      → Same d m curr inode_size
      → OutDisk d m n (curr + inode_size) lo hi files
      → OutDisk d m (suc n) curr lo hi ([] ∷ files)
  used :
      {n curr lo mid hi : ℕ} {xs : List ℕ} {files : List (List ℕ)}
      → Same d m curr dblocks
      → OutFile d curr (d.whole (curr + size)) m lo mid xs
      → OutDisk d m n (curr + inode_size) mid hi files
      → OutDisk d m (suc n) curr lo hi (xs ∷ files)

module _ {d : Disk} {m : Image} {curr : ℕ} where
  -- A file depends on its inode and its blocks only.
  pub OutFile-kept :
      {z : ℤ} {lo hi : ℕ} {xs : List ℕ} (n : Image)
      → OutFile d curr z m lo hi xs
      → ((a : ℕ) → curr ≤ a → a < curr + inode_size → n a ≡ m a)
      → ((a : ℕ) → block_at d lo ≤ a → a < block_at d hi → n a ≡ m a)
      → OutFile d curr z n lo hi xs
  OutFile-kept n (direct o) row rest =
      direct (Out-kept n o (λ j lt. row (curr + dblocks + j) (omega arith) (omega arith)) rest)
  OutFile-kept {lo} {hi} n (single {b} o p) row rest =
      single
        (Out-kept n o (λ j lt. row _ (omega arith) (omega arith))
          (λ a h k. rest a h (omega (arith, k, block_at_mono d b hi (Out-le p)))))
        (Out-kept n p (λ j lt. row _ (omega arith) (omega arith))
          (λ a h k. rest a (omega (arith, h, block_at_mono d lo b (Out-le o))) k))
  OutFile-kept {lo} {hi} n (double {a} {b} o p q) row rest =
      double
        (Out-kept n o (λ j lt. row _ (omega arith) (omega arith))
          (λ e h k.
            rest e h
              (omega (arith, k, block_at_mono d a b (Out-le p), block_at_mono d b hi (Out-le q)))))
        (Out-kept n p (λ j lt. row _ (omega arith) (omega arith))
          (λ e h k.
            rest e (omega (arith, h, block_at_mono d lo a (Out-le o)))
              (omega (arith, k, block_at_mono d b hi (Out-le q)))))
        (Out-kept n q (λ j lt. row _ (omega arith) (omega arith))
          (λ e h k.
            rest e
              (omega (arith, h, block_at_mono d lo a (Out-le o), block_at_mono d a b (Out-le p)))
              k))
  OutFile-kept {lo} {hi} n (triple {a} {b} {c} o p q r) row rest =
      let at_a = block_at_mono d lo a (Out-le o) in
      let at_b = block_at_mono d a b (Out-le p) in
      let at_c = block_at_mono d b c (Out-le q) in
      let at_end = block_at_mono d c hi (Out-le r) in
      triple
        (Out-kept n o (λ j lt. row _ (omega arith) (omega arith))
          (λ e h k. rest e h (omega (arith, k, at_b, at_c, at_end))))
        (Out-kept n p (λ j lt. row _ (omega arith) (omega arith))
          (λ e h k. rest e (omega (arith, h, at_a)) (omega (arith, k, at_c, at_end))))
        (Out-kept n q (λ j lt. row _ (omega arith) (omega arith))
          (λ e h k. rest e (omega (arith, h, at_a, at_b)) (omega (arith, k, at_end))))
        (Out-kept n r (λ j lt. row _ (omega arith) (omega arith))
          (λ e h k. rest e (omega (arith, h, at_a, at_b, at_c)) k))

module _ (d : Disk) where
  -- From `s` to `t` only words between the two addresses and fresh blocks have changed.
  pub record Within (from to : ℕ) (s t : Copying) : Type 0 where
    pub on : s.block_index ≤ t.block_index
    pub kept : (a : ℕ) → a < block_at d s.block_index → (a < from) ⊎ (to ≤ a) → t.dest a ≡ s.dest a
    pub beyond : (a : ℕ) → block_at d t.block_index ≤ a → t.dest a ≡ s.dest a

  abbrev pub inode_copied : (curr : ℕ) → Copying → Copying
  inode_copied curr s = record s { dest = overlay s.dest d.whole curr curr inode_size }

  pub memcpy-inode :
      (curr : ℕ) (s : Copying)
      → curr + inode_size ≤ d.file_size
      → memcpy d curr curr inode_size s ≡ some (tt, inode_copied curr s)
  unfolding memcpy
  memcpy-inode curr s fits =
      let a : leb (curr + inode_size) d.file_size ≡ true = ground arith in simp a

  pub inode-Same : (curr : ℕ) (s : Copying) → Same d (inode_copied curr s).dest curr inode_size
  unfolding overlay
  inode-Same curr s j lt =
      let a : leb curr (curr + j) ≡ true = ground arith in
      let b : ltb (curr + j) (curr + inode_size) ≡ true = ground arith in
      let e : curr + (curr + j - curr) ≡ curr + j = omega arith in simp (a, b, e)

  pub inode_elsewhere :
      (curr a : ℕ) (s : Copying)
      → (a < curr) ⊎ (curr + inode_size ≤ a)
      → (inode_copied curr s).dest a ≡ s.dest a
  unfolding overlay
  inode_elsewhere curr a s (inl before) = ground arith
  inode_elsewhere curr a s (inr behind) = ground arith
