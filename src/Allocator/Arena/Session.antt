-- ===== src/Allocator/Arena/Session.antt =====
-- Sequences of calls of `Mem_Alloc` in an arena.
use mathlib.Core.Path.{subst}
use native.Mathlib.Decide.{dec_lt}
use opearting_system.Base.{
  ℕ, ◌+◌, ◌-◌, ◌%◌, ◌^◌, ◌≤◌, ◌<◌, ◌≡◌, sym, ◌⊎◌, List, [], ◌∷◌, arith, All,
}
use opearting_system.Base.Int.{pos, ◌-ℤ◌, ◌<ℤ◌, pos-sub-pos}
use opearting_system.Allocator.State.{
  Ptr, null, block_header, Globals, Run, done, Cmd, pure, ◌>>=◌, and_then,
}
use opearting_system.Allocator.Alloc.{mem_alloc}
use opearting_system.Allocator.Arena.{Block, block, Arena}
use opearting_system.Allocator.Arena.Step.{
  Outcome, refused, granted, round_up, mem_alloc-Outcome, mem_alloc-short,
}
use opearting_system.Allocator.Arena.Layout.{Apart, Within, Arena-Apart}

-- A caller that asks for each of the sizes in turn.
abbrev pub alloc_all : List ℕ → Cmd (List Ptr)
alloc_all [] = pure []
alloc_all (n ∷ ns) = do p ← mem_alloc (pos n); ps ← alloc_all ns; pure (p ∷ ps)

-- A multiple of the block size that an `int` holds.
pub record Aligned (n : ℕ) : Type 0 where
  pub positive : 0 < n
  pub whole : n % 8 ≡ 0
  pub small : n < 2 ^ 31 - 8

-- `Handed ns ps k xs k' ys`: asked for `ns` bytes in turn, an arena of blocks `xs` and `k` free bytes
-- answered `ps` and became one of blocks `ys` and `k'` free bytes. NULL is the answer only to a
-- request for no less than what is free, and a smaller request is served from what is free.
pub data Handed : List ℕ → List Ptr → ℕ → List Block → ℕ → List Block → Type 0 where
  end : {k : ℕ} {xs : List Block} → Handed [] [] k xs k xs
  refuse :
      {n k k' : ℕ} {ns : List ℕ} {ps : List Ptr} {xs ys : List Block}
      → k ≤ n
      → Handed ns ps k xs k' ys
      → Handed (n ∷ ns) (null ∷ ps) k xs k' ys
  grant :
      {n k k' : ℕ} {ns : List ℕ} {ps : List Ptr} {xs ys : List Block} (start : Ptr)
      → n ≤ k
      → Handed ns ps (k - n) (block start n ∷ xs) k' ys
      → Handed (n ∷ ns) ((start + block_header) ∷ ps) k xs k' ys

-- A finished run of a session.
pub data Session (base size : ℕ) (ns : List ℕ) (k : ℕ) (xs : List Block)
    : Run (List Ptr) → Type 0 where
  session :
      {ps : List Ptr} {k' : ℕ} {ys : List Block} {g : Globals}
      → Handed ns ps k xs k' ys
      → Arena base size (pos k') k' ys g
      → Apart ys × All (Within base size) ys
      → Session base size ns k xs (done ps g)

round_up-whole : (n : ℕ) → Aligned n → n ≡ round_up n
round_up-whole n a = let positive = a.positive in let whole = a.whole in omega arith

-- A request that is a multiple of the block size, in an arena with as many bytes left as are free.
mem_alloc-Aligned :
    {base size k : ℕ} {xs : List Block} {g : Globals} (n : ℕ)
    → Aligned n
    → Arena base size (pos k) k xs g
    → Outcome base size (pos k) k n n xs (mem_alloc (pos n) g)
mem_alloc-Aligned {base} {size} {k} {xs} {g} n a arena = elim (dec_lt k n) [
  | yes more ↦ mem_alloc-short n n arena (omega arith)
  | no fits ↦
      let e : n ≡ round_up n = round_up-whole n a in
      subst (λ r. Outcome base size (pos k) k n r xs (mem_alloc (pos n) g)) (sym e)
        (mem_alloc-Outcome n arena a.positive a.small (omega arith))
]

no_room : {k n : ℕ} → (pos k <ℤ pos n) ⊎ (k ≤ n) → k ≤ n
no_room h = omega arith

module _ {base size : ℕ} where
  cons_refused :
      {n k : ℕ} {ns : List ℕ} {xs : List Block} {r : Run (List Ptr)}
      → k ≤ n
      → Session base size ns k xs r
      → Session base size (n ∷ ns) k xs (and_then r (λ ps. pure (null ∷ ps)))
  cons_refused le (session h a w) = session (refuse le h) a w

  cons_granted :
      {n k : ℕ} {ns : List ℕ} {xs : List Block} {r : Run (List Ptr)} (start : Ptr)
      → n ≤ k
      → Session base size ns (k - n) (block start n ∷ xs) r
      → Session base size (n ∷ ns) k xs (and_then r (λ ps. pure ((start + block_header) ∷ ps)))
  cons_granted start le (session h a w) = session (grant start le h) a w

  next_call :
      {n k : ℕ} {ns : List ℕ} {xs : List Block} {r : Run Ptr}
      → ((k' : ℕ) (ys : List Block) (g : Globals)
          → Arena base size (pos k') k' ys g
          → Session base size ns k' ys (alloc_all ns g))
      → Outcome base size (pos k) k n n xs r
      → Session base size (n ∷ ns) k xs (and_then r (λ p. alloc_all ns >>= λ ps. pure (p ∷ ps)))
  next_call {k} {xs} later (refused {g} why e a) = cons_refused (no_room why) (later k xs g a)
  next_call {n} {k} {ns} {xs} later (granted {g} start enough le a) =
      let tidy : pos k -ℤ pos n ≡ pos (k - n) = pos-sub-pos k n le in
      cons_granted start le (
        later (k - n) (block start n ∷ xs) g
          (subst (λ z. Arena base size z (k - n) (block start n ∷ xs) g) tidy a))

  -- In an arena with as many bytes left as are free, any sequence of requests for positive multiples of 8
  -- that an `int` holds (`Aligned`) runs to its end, without a fault or a loop that does not end. Each is
  -- answered with NULL, and then asks for no less than what is free, or with the payload of a new block
  -- of its size; in the end the region is an arena again, whose blocks lie within it and apart.
  pub alloc_all-Session :
      (ns : List ℕ) (k : ℕ) (xs : List Block) (g : Globals)
      → All Aligned ns
      → Arena base size (pos k) k xs g
      → Session base size ns k xs (alloc_all ns g)
  alloc_all-Session [] k xs g h a = session end a (Arena-Apart a)
  alloc_all-Session (n ∷ ns) k xs g h a =
      next_call (λ k' ys g'. alloc_all-Session ns k' ys g' h.1) (mem_alloc-Aligned n h.0 a)
