-- ===== src/Allocator/Arena/Step.antt =====
-- One call of `Mem_Alloc` in an arena.
use opearting_system.Base.{
  ℕ, ◌+◌, ◌-◌, ◌*◌, ◌/◌, ◌%◌, ◌^◌, ◌≤◌, ◌<◌, ◌≡◌, refl, ◌⊎◌, inl, inr, Bool, true, false, List, ◌∷◌,
  arith, Bool-cases, ltb→lt, lt→ltb,
}
use opearting_system.Base.Int.{ℤ, pos, negsuc, ◌-ℤ◌, ◌<ℤ◌, ◌≤ℤ◌, ltb_ℤ, eqb_ℤ}
use opearting_system.Allocator.State.{
  Ptr, null, block_header, e_no_space, Node, Globals, Run, done, ◌>>◌,
}
use opearting_system.Allocator.Facts.{round_to-pos}
use opearting_system.Allocator.Alloc.{place, hand_out, mem_alloc}
use opearting_system.Allocator.Arena.{
  Block, block, Stack, Cached, globals, Top, Top-inside, Arena, room, full,
}
use opearting_system.Allocator.Arena.Choose.{found, Chosen, choose-Chosen}
use opearting_system.Allocator.Arena.Grant.{
  recache, place-split, hand_out-top, granted-Arena, place-whole, hand_out-whole, full-Arena,
}
use mathlib.Core.Path.{subst}
use native.Mathlib.Decide.{dec_lt}

-- What a call of `Mem_Alloc` for `n` bytes, `r` after rounding, does in an arena: it refuses, sets the
-- error code and leaves the arena as it was, or it hands out a block behind all others.
pub data Outcome (base size : ℕ) (left : ℤ) (k n r : ℕ) (xs : List Block) : Run Ptr → Type 0 where
  refused :
      {g : Globals}
      → (left <ℤ pos n) ⊎ (k ≤ r)
      → g.m_error ≡ e_no_space
      → Arena base size left k xs g
      → Outcome base size left k n r xs (done null g)
  granted :
      {g : Globals} (start : Ptr)
      → pos n ≤ℤ left
      → r ≤ k
      → Arena base size (left -ℤ pos n) (k - r) (block start r ∷ xs) g
      → Outcome base size left k n r xs (done (start + block_header) g)

with_room :
    {base size i j : ℕ} {left : ℤ} {xs : List Block} {g : Globals}
    → i ≡ j
    → Arena base size left i xs g
    → Arena base size left j xs g
with_room {base} {size} {left} {xs} {g} e a = subst (λ j. Arena base size left j xs g) e a

module _ {base size : ℕ} {heap : Ptr → Node} {last top : Ptr} {k : ℕ}
    (t : Top base size heap last top k) (error : ℕ) (need : Bool) (last_allocate : ℤ) where
  abbrev state : ℤ → Ptr → Ptr → Globals
  state left l s = globals base size top left error l s (pos k) need last_allocate heap

  serve-whole :
      {xs : List Block} (left : ℤ) (s : Ptr) (n : ℕ)
      → Stack base heap last top xs
      → pos n ≤ℤ left
      → Outcome base size left k n k xs
          ((place (found top k) (pos k) >> hand_out top (pos n)) (state left top s))
  serve-whole {xs} left s n stack enough =
      let none_left : 0 ≡ k - k = omega arith in
      let arena = full-Arena t left error need last_allocate (left -ℤ pos n) s stack in
      rw
        (
          place-whole t left error need last_allocate s,
          hand_out-whole t left error need last_allocate (pos n) s,
        )
        (granted top enough (omega arith) (with_room none_left arena))

  serve-part :
      {xs : List Block} (left : ℤ) (s : Ptr) (n r : ℕ)
      → Stack base heap last top xs
      → Cached base size s
      → pos n ≤ℤ left
      → 8 ≤ r
      → r % 8 ≡ 0
      → r + 8 ≤ k
      → Outcome base size left k n r xs
          ((place (found top k) (pos r) >> hand_out top (pos n)) (state left top s))
  serve-part left s n r stack c enough low mult fits =
      let q = recache t left error need last_allocate r low fits s c in
      rw
        (
          place-split t left error need last_allocate r low fits s q,
          hand_out-top t left error need last_allocate r low fits (pos n) q.largest q.second,
        )
        (granted top enough (omega arith)
          (granted-Arena t left error need last_allocate r low fits (left -ℤ pos n) s q stack mult))

  -- The end of `Mem_Alloc`, once the block on top has been chosen.
  serve :
      {xs : List Block} (left : ℤ) (s : Ptr) (n r : ℕ)
      → Stack base heap last top xs
      → Cached base size s
      → pos n ≤ℤ left
      → 8 ≤ r
      → r % 8 ≡ 0
      → r ≤ k
      → Outcome base size left k n r xs
          ((place (found top k) (pos r) >> hand_out top (pos n)) (state left top s))
  serve left s n r stack c enough low mult le = elim (dec_lt r k) [
    | yes less ↦ let whole = t.whole in serve-part left s n r stack c enough low mult (omega arith)
    | no more ↦ let e : r ≡ k = omega arith in rw e (serve-whole left s n stack enough)
  ]

abbrev pub round_up : ℕ → ℕ
round_up n = (n - 1) / 8 * 8 + 8

short→lt : (left : ℤ) (n : ℕ) → ltb_ℤ left (pos n) ≡ true → left <ℤ pos n
short→lt left n h = ltb→lt _ _ h

enough→le : (left : ℤ) (n : ℕ) → ltb_ℤ left (pos n) ≡ false → pos n ≤ℤ left
enough→le left n h = ground arith

module _ {base size : ℕ} {heap : Ptr → Node} {last top : Ptr} {k : ℕ}
    (t : Top base size heap last top k) (left : ℤ) (error : ℕ) (need : Bool)
    (last_allocate : ℤ) where
  -- `Mem_Alloc` behind its search.
  decide_choice :
      {xs : List Block} (n : ℕ) (l s : Ptr)
      → Stack base heap last top xs
      → 0 < n
      → n < 2 ^ 31 - 8
      → round_up n ≤ k
      → ltb_ℤ left (pos n) ≡ false
      → Chosen t left error need last_allocate (round_up n) l s
      → Outcome base size left k n
          (round_up n)
          xs
          (mem_alloc (pos n) (state t error need last_allocate left l s))
  unfolding mem_alloc
  decide_choice n l s stack pos_n small fits enough c =
      let chosen : eqb_ℤ (pos k) (negsuc 0) ≡ false = ground arith in
      rw (enough, round_to-pos n 8 pos_n (omega arith) (omega arith), c.runs)
        (elim c.outcome [
          | inl e ↦
              rw (e, chosen)
                (serve t error need last_allocate left c.second n (round_up n) stack c.cached
                  (enough→le left n enough) (omega arith) (omega arith) fits)
          | inr e ↦
              rw (e.0) (
                refused (inr e.1) refl
                  (room stack t (inr (Top-inside t)) c.cached (inr (inr refl))))
        ])

-- A positive request in an arena, which an `int` holds and whose rounded size is no larger than the free
-- block, ends without a fault. It is refused, with E_NO_SPACE and the arena as it was, if it asks for more
-- than is left or for all that is free; or it is answered with the payload of a new block of the rounded
-- size, the bytes asked for are taken off `remaining_size`, and the region is an arena again.
pub mem_alloc-Outcome :
    {base size k : ℕ} {left : ℤ} {xs : List Block} {g : Globals} (n : ℕ)
    → Arena base size left k xs g
    → 0 < n
    → n < 2 ^ 31 - 8
    → round_up n ≤ k
    → Outcome base size left k n (round_up n) xs (mem_alloc (pos n) g)
unfolding mem_alloc
mem_alloc-Outcome n (room {left} {error} {l} {s} {need} {last_allocate} stack t cl cs u) pos_n small
      fits =
    elim (Bool-cases (ltb_ℤ left (pos n))) [
      | inl short ↦ rw short (refused (inl (short→lt left n short)) refl (room stack t cl cs u))
      | inr enough ↦
          decide_choice t left error need last_allocate n l s stack pos_n small fits enough
            (choose-Chosen t left error need last_allocate stack (round_up n) l s cs u)
    ]
mem_alloc-Outcome n (full stack e low fit u) pos_n small fits = absurd (omega arith)

-- A request for more than `remaining_size`.
pub mem_alloc-short :
    {base size k : ℕ} {left : ℤ} {xs : List Block} {g : Globals} (n r : ℕ)
    → Arena base size left k xs g
    → left <ℤ pos n
    → Outcome base size left k n r xs (mem_alloc (pos n) g)
unfolding mem_alloc
mem_alloc-short n r (room {left} stack t cl cs u) short =
    let e : ltb_ℤ left (pos n) ≡ true = lt→ltb _ _ short in
    rw e (refused (inl short) refl (room stack t cl cs u))
mem_alloc-short n r (full {left} stack e low fit u) short =
    let e' : ltb_ℤ left (pos n) ≡ true = lt→ltb _ _ short in
    rw e' (refused (inl short) refl (full stack e low fit u))
