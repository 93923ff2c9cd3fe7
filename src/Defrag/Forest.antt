-- ===== src/Defrag/Forest.antt =====
-- The trees of blocks below a row of pointers, in the input and in the output of hw6/defrag.c.
use opearting_system.Base.{
  ℕ, suc, ◌+◌, ◌*◌, ◌≤◌, ◌<◌, ◌≡◌, ap, ◌∙◌, arith, List, [], ◌∷◌, ◌++◌, Bool, true, false, ◌||◌,
}
use opearting_system.Base.Int.{ℤ, pos, ◌-ℤ◌, ◌≤ℤ◌, ◌<ℤ◌}
use opearting_system.Defrag.Image.{Image, Disk}
use opearting_system.Defrag.Copy.{block_at}
use opearting_system.Defrag.Blocks.{block_at-suc, block_at_mono}

-- The pointers in the `k` words from `a` on of the input are the roots of trees with `l` levels of blocks
-- of pointers. They hold the file's data blocks `xs`, in all `c` blocks, by which the size that is left
-- falls from the first to the second number. The Boolean tells whether
-- nothing of the file was left for some pointer.
pub data In (d : Disk) : (l a k : ℕ) → ℤ → ℤ → ℕ → List ℕ → Bool → Type 0 where
  over : {l a k : ℕ} {z : ℤ} → z ≤ℤ pos 0 → In d l a (suc k) z z 0 [] true
  end_of_row : {l a : ℕ} {z : ℤ} → In d l a 0 z z 0 [] false
  data_block :
      {a k x : ℕ} {z y : ℤ} {c : ℕ} {xs : List ℕ} {e : Bool}
      → pos 0 <ℤ z
      → d.whole a ≡ pos x
      → block_at d x + d.num_int ≤ d.file_size
      → In d 0 (a + 1) k (z -ℤ pos (4 * d.num_int)) y c xs e
      → In d 0 a (suc k) z y (suc c) (x ∷ xs) e
  index_block :
      {l a k p : ℕ} {z y x : ℤ} {b c : ℕ} {xs ys : List ℕ} {e f : Bool}
      → pos 0 <ℤ z
      → d.whole a ≡ pos p
      → block_at d p + d.num_int ≤ d.file_size
      → In d l (block_at d p) d.num_int z y b xs e
      → In d (suc l) (a + 1) k y x c ys f
      → In d (suc l) a (suc k) z x (suc (b + c)) (xs ++ ys) (e || f)

-- The same trees in an output: their blocks are numbered in order, from `lo` to the one before `hi`, a
-- block of pointers in front of what is below it, and the data blocks are copies of the blocks `xs` of
-- the input.
pub data Out (d : Disk) (m : Image) : (l slot k lo hi : ℕ) → ℤ → ℤ → List ℕ → Type 0 where
  over : {l slot k lo : ℕ} {z : ℤ} → z ≤ℤ pos 0 → Out d m l slot k lo lo z z []
  end_of_row : {l slot lo : ℕ} {z : ℤ} → Out d m l slot 0 lo lo z z []
  data_block :
      {slot k lo hi x : ℕ} {z y : ℤ} {xs : List ℕ}
      → pos 0 <ℤ z
      → m slot ≡ pos lo
      → ((w : ℕ) → w < d.num_int → m (block_at d lo + w) ≡ d.whole (block_at d x + w))
      → Out d m 0 (slot + 1) k (lo + 1) hi (z -ℤ pos (4 * d.num_int)) y xs
      → Out d m 0 slot (suc k) lo hi z y (x ∷ xs)
  index_block :
      {l slot k lo mid hi : ℕ} {z y x : ℤ} {xs ys : List ℕ}
      → pos 0 <ℤ z
      → m slot ≡ pos lo
      → Out d m l (block_at d lo) d.num_int (lo + 1) mid z y xs
      → Out d m (suc l) (slot + 1) k mid hi y x ys
      → Out d m (suc l) slot (suc k) lo hi z x (xs ++ ys)

module _ {d : Disk} {m : Image} where
  pub Out-le :
      {l slot k lo hi : ℕ} {z y : ℤ} {xs : List ℕ} → Out d m l slot k lo hi z y xs → lo ≤ hi
  Out-le (over h) = omega arith
  Out-le end_of_row = omega arith
  Out-le (data_block h e f o) = omega (arith, Out-le o)
  Out-le (index_block h e o q) = omega (arith, Out-le o, Out-le q)

  -- Trees depend on their row of pointers and on their blocks only.
  pub Out-kept :
      {l slot k lo hi : ℕ} {z y : ℤ} {xs : List ℕ} (n : Image)
      → Out d m l slot k lo hi z y xs
      → ((j : ℕ) → j < k → n (slot + j) ≡ m (slot + j))
      → ((a : ℕ) → block_at d lo ≤ a → a < block_at d hi → n a ≡ m a)
      → Out d n l slot k lo hi z y xs
  Out-kept n (over h) row rest = over h
  Out-kept n end_of_row row rest = end_of_row
  Out-kept n (data_block {slot} {lo} {hi} h e f o) row rest =
      data_block h
        (ap n {x = slot} {y = slot + 0} (omega arith)
          ∙ row 0 (omega arith)
          ∙ ap m {x = slot + 0} {y = slot} (omega arith)
          ∙ e)
        (λ w lt.
          rest (block_at d lo + w) (omega arith)
            (omega (arith, block_at-suc d lo, block_at_mono d (lo + 1) hi (Out-le o)))
          ∙ f w lt)
        (Out-kept n o
          (λ j lt.
            ap n {x = slot + 1 + j} {y = slot + suc j} (omega arith)
            ∙ row (suc j) (omega arith)
            ∙ ap m {x = slot + suc j} {y = slot + 1 + j} (omega arith))
          (λ a h k. rest a (omega (arith, h, block_at-suc d lo)) k))
  Out-kept n (index_block {slot} {lo} {mid} {hi} h e o q) row rest =
      index_block h
        (ap n {x = slot} {y = slot + 0} (omega arith)
          ∙ row 0 (omega arith)
          ∙ ap m {x = slot + 0} {y = slot} (omega arith)
          ∙ e)
        (Out-kept n o
          (λ j lt. rest (block_at d lo + j) (omega arith) (
            omega (
              arith,
              block_at-suc d lo,
              block_at_mono d (lo + 1) hi (omega (arith, Out-le o, Out-le q)),
            )))
          (λ a h k.
            rest a (omega (arith, h, block_at-suc d lo))
              (omega (arith, k, block_at_mono d mid hi (Out-le q)))))
        (Out-kept n q
          (λ j lt.
            ap n {x = slot + 1 + j} {y = slot + suc j} (omega arith)
            ∙ row (suc j) (omega arith)
            ∙ ap m {x = slot + suc j} {y = slot + 1 + j} (omega arith))
          (λ a h k. rest a (omega (arith, h, block_at_mono d lo mid (omega (arith, Out-le o)))) k))
