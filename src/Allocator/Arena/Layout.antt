-- ===== src/Allocator/Arena/Layout.antt =====
-- Where the blocks of an arena lie.
use opearting_system.Base.{ℕ, ◌+◌, ◌≤◌, List, [], ◌∷◌, arith, All}
use opearting_system.Base.Int.{ℤ}
use opearting_system.Allocator.State.{Ptr, block_header, global_size, Node, Globals}
use opearting_system.Allocator.Arena.{Block, Stack, bottom, above, Arena, room, full}

-- A block with its header ends where `start` begins, or before.
abbrev pub EndsBefore : Ptr → Block → Type 0
EndsBefore start b = b.start + block_header + b.bytes ≤ start

-- No two blocks, headers included, share an address.
abbrev pub Apart : List Block → Type 0
Apart [] = Unit
Apart (b ∷ bs) = All (EndsBefore b.start) bs × Apart bs

-- Header and payload lie in the region, behind its head.
abbrev pub Within : (base size : ℕ) → Block → Type 0
Within base size b =
    (base + global_size ≤ b.start) × (b.start + block_header + b.bytes ≤ base + size)

EndsBefore-mono :
    {p q : Ptr} (xs : List Block) → p ≤ q → All (EndsBefore p) xs → All (EndsBefore q) xs
EndsBefore-mono [] le h = tt
EndsBefore-mono (x ∷ xs) le h = (omega arith, EndsBefore-mono xs le h.1)

module _ {base : ℕ} {heap : Ptr → Node} where
  Stack-EndsBefore :
      {last end : Ptr} {xs : List Block} → Stack base heap last end xs → All (EndsBefore end) xs
  Stack-EndsBefore (bottom e) = tt
  Stack-EndsBefore (above {xs} s n e small) =
      (omega arith, EndsBefore-mono xs (omega arith) (Stack-EndsBefore s))

  Stack-Apart : {last end : Ptr} {xs : List Block} → Stack base heap last end xs → Apart xs
  Stack-Apart (bottom e) = tt
  Stack-Apart (above s n e small) = (Stack-EndsBefore s, Stack-Apart s)

  Stack-first :
      {last end : Ptr} {xs : List Block} → Stack base heap last end xs → base + global_size ≤ end
  Stack-first (bottom e) = omega arith
  Stack-first (above s n e small) = omega (arith, Stack-first s)

  Stack-Within :
      {last end : Ptr} {xs : List Block} (size : ℕ)
      → Stack base heap last end xs
      → end ≤ base + size
      → All (Within base size) xs
  Stack-Within size (bottom e) fits = tt
  Stack-Within size (above s n e small) fits =
      ((Stack-first s, omega arith), Stack-Within size s (omega arith))

-- The blocks of an arena lie in the region and do not overlap.
pub Arena-Apart :
    {base size k : ℕ} {left : ℤ} {xs : List Block} {g : Globals}
    → Arena base size left k xs g
    → Apart xs × All (Within base size) xs
Arena-Apart {size} (room s t cl cs u) =
    let fits = t.fits in (Stack-Apart s, Stack-Within size s (omega arith))
Arena-Apart {size} (full s n small fits u) = (
  (Stack-EndsBefore s, Stack-Apart s),
  ((Stack-first s, fits), Stack-Within size s (omega arith)),
)
