-- ===== src/Allocator/Arena.antt =====
-- The pool of hw5/mem.c while nothing is freed: blocks stacked from the bottom of the region, and
-- one free block on top of them.
mod Choose
mod Grant
pub mod Step
pub mod Start
pub mod Layout
pub mod Session
pub mod Release
use opearting_system.Base.{
  ℕ, ◌+◌, ◌*◌, ◌%◌, ◌^◌, ◌≤◌, ◌<◌, ◌≡◌, ◌∙◌, ◌⊎◌, Bool, true, List, [], ◌∷◌, arith, length,
}
use opearting_system.Base.Int.{ℤ, pos}
use opearting_system.Allocator.State.{
  Ptr, null, free, allocated, block_header, global_size, Node, region, Globals, inside,
}
use opearting_system.Allocator.Facts.{inside_lem}

-- An allocated block: the address of its header, and the bytes of its payload.
pub record Block : Type 0 where
  pub start : Ptr
  pub bytes : ℕ

abbrev pub block : Ptr → ℕ → Block
block p r = record { start = p; bytes = r }

-- The header of an allocated block that ends at `next`.
abbrev pub used_node : (next prev : Ptr) → Node
used_node q p = record { next = q; prev = p; next_free = null; status = allocated }

-- The header of the free block at the end of the list.
abbrev pub top_node : (prev : Ptr) → Node
top_node p = record { next = null; prev = p; next_free = null; status = free }

-- `Stack base heap last end xs`: the blocks `xs`, latest first, fill the region from the first header
-- to `end`, and `last` is the header of the latest, or NULL.
pub data Stack (base : ℕ) (heap : Ptr → Node) : Ptr → Ptr → List Block → Type 0 where
  bottom : {end : Ptr} → end ≡ base + global_size → Stack base heap null end []
  above :
      {q p end : Ptr} {r : ℕ} {xs : List Block}
      → Stack base heap q p xs
      → heap p ≡ used_node end q
      → end ≡ p + block_header + r
      → 8 ≤ r
      → Stack base heap p end (block p r ∷ xs)

-- A cache holds NULL or a header in the region.
abbrev pub Cached : (base size : ℕ) → Ptr → Type 0
Cached base size p = (p ≡ null) ⊎ (inside base size p ≡ true)

abbrev pub globals :
    (base size : ℕ) (head_free : Ptr) (left : ℤ) (error : ℕ) (largest second : Ptr) (last_size : ℤ)
    (need : Bool) (last_allocate : ℤ)
    → (Ptr → Node)
    → Globals
globals base size head_free left error largest second last_size need last_allocate heap = record {
  global_head = region (record {
    base = base;
    head = base + global_size;
    head_free = head_free;
    actual_size = size;
    remaining_size = left;
  });
  m_error = error;
  largest = largest;
  second_largest = second;
  last_block_size = last_size;
  need_global_coalesce = need;
  size_of_last_allocate = last_allocate;
  heap = heap;
}

-- What holds of the free block `top` of `k` bytes: there is room for its header, its bytes, and the
-- headers of all the blocks that it can still be cut into.
pub record Top (base size : ℕ) (heap : Ptr → Node) (last top : Ptr) (k : ℕ) : Type 0 where
  pub is_top : heap top ≡ top_node last
  pub first : base + global_size ≤ top
  pub fits : top + 5 * k ≤ base + size
  pub some_room : 8 ≤ k
  pub whole : k % 8 ≡ 0
  pub small : k < 2 ^ 31

-- `Arena base size left k xs g`: in state `g` the blocks `xs` are allocated, the free block holds `k`
-- bytes, and `remaining_size` is `left`.
pub data Arena (base size : ℕ) : ℤ → ℕ → List Block → Globals → Type 0 where
  room :
      {last top : Ptr} {k : ℕ} {xs : List Block} {left : ℤ} {error : ℕ} {l s : Ptr} {need : Bool}
      {last_allocate : ℤ} {heap : Ptr → Node}
      → Stack base heap last top xs
      → Top base size heap last top k
      → Cached base size l
      → Cached base size s
      → (l ≡ null) ⊎ (s ≡ null) ⊎ (l ≡ top)
      → Arena base size left k xs
          (globals base size top left error l s (pos k) need last_allocate heap)
  full :
      {q p : Ptr} {r : ℕ} {xs : List Block} {left : ℤ} {error : ℕ} {l s : Ptr} {last_size : ℤ}
      {need : Bool} {heap : Ptr → Node}
      → Stack base heap q p xs
      → heap p ≡ used_node null q
      → 8 ≤ r
      → p + block_header + r ≤ base + size
      → (l ≡ null) ⊎ (s ≡ null)
      → Arena base size left 0
          (block p r ∷ xs)
          (globals base size null left error l s last_size need (pos r) heap)

pub Stack-length :
    {base : ℕ} {heap : Ptr → Node} {last end : Ptr} {xs : List Block}
    → Stack base heap last end xs
    → base + global_size + 40 * length xs ≤ end
Stack-length (bottom e) = omega arith
Stack-length (above s _ e small) = omega (arith, Stack-length s)

-- A stack survives any change behind its end.
pub Stack-frame :
    {base : ℕ} {heap heap' : Ptr → Node} {last end : Ptr} {xs : List Block}
    → Stack base heap last end xs
    → ((a : Ptr) → a < end → heap' a ≡ heap a)
    → Stack base heap' last end xs
Stack-frame (bottom e) same = bottom e
Stack-frame (above {p} s n e small) same =
    above (Stack-frame s (λ a h. same a (omega arith))) (same p (omega arith) ∙ n) e small

module _ {base size : ℕ} {heap : Ptr → Node} {last top : Ptr} {k : ℕ}
    (t : Top base size heap last top k) where
  pub Top-inside : inside base size top ≡ true
  Top-inside =
      let first = t.first in
      let fits = t.fits in
      let some_room = t.some_room in inside_lem base size top (omega arith) (omega arith)

  -- The header behind a block of `r` bytes cut off the top.
  pub cut-inside : (r : ℕ) → 8 ≤ r → r + 8 ≤ k → inside base size (top + block_header + r) ≡ true
  cut-inside r low h =
      let first = t.first in
      let fits = t.fits in inside_lem base size (top + block_header + r) (omega arith) (omega arith)
