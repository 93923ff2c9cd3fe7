-- ===== src/Allocator/Cached.antt =====
-- `Mem_Alloc` when both caches are in use: the cached block is handed out unseen.
use opearting_system.Base.{
  ℕ, zero, suc, ◌+◌, ◌-◌, ◌^◌, ◌≤◌, ◌<◌, ◌≡◌, refl, ap, ◌∙◌, inl, inr, Bool, true, false, arith,
  ◌==◌, Bool-cases, ==-refl,
}
use opearting_system.Base.Int.{
  ℤ, pos, negsuc, ◌-ℤ◌, ◌≤ℤ◌, leb_ℤ, ltb_ℤ, eqb_ℤ, to_int-pos, pos-add-pos, sub_ℕ, sub_ℕ-le,
}
use opearting_system.Allocator.State.{
  Ptr, null, free, allocated, block_header, Node, Globals, region, done, inside, update,
}
use opearting_system.Allocator.Alloc.{
  Choice, walk_back, choose, place, take_whole, hand_out, mem_alloc,
}
use opearting_system.Allocator.Facts.{inside-ne-null, update-update, round_to-pos}
use opearting_system.Allocator.Arena.{globals}
use opearting_system.Allocator.Arena.Step.{round_up}
use opearting_system.Allocator.Arena.Release.{head_of}

-- The cached largest block `l`, of `b` bytes and not the last one, and the free block before it.
pub record Largest (base size : ℕ) (l s : Ptr) (b : ℕ) (heap : Ptr → Node) : Type 0 where
  pub l_inside : inside base size l ≡ true
  pub s_inside : inside base size s ≡ true
  pub next : (heap l).next ≡ l + block_header + b
  pub s_next : Ptr
  pub s_bytes : ℕ
  pub s_is : (heap s).next ≡ s + block_header + s_bytes
  pub no_smaller : s_bytes ≤ b
  pub small : b < 2 ^ 31

-- `p` is `before`, which is NULL or free, or `before` is reached from it over `k` allocated blocks, each
-- followed to the one before.
pub data Back (base size : ℕ) (heap : Ptr → Node) : ℕ → Ptr → Ptr → Type 0 where
  at_null : Back base size heap 0 null null
  at_free :
      {p : Ptr}
      → inside base size p ≡ true
      → ((heap p).status == free) ≡ true
      → Back base size heap 0 p p
  over :
      {k : ℕ} {p before : Ptr}
      → inside base size p ≡ true
      → ((heap p).status == free) ≡ false
      → Back base size heap k (heap p).prev before
      → Back base size heap (suc k) p before

pub at_next : (p r : ℕ) → (p + block_header + r == null) ≡ false
at_next p r = ground arith

pub distance : (p r : ℕ) → sub_ℕ (p + block_header + r) (p + block_header) ≡ pos r
distance p r =
    sub_ℕ-le (p + block_header + r) (p + block_header) (omega arith) ∙ ap pos (omega arith)

module _ {base size l s b : ℕ} {heap : Ptr → Node} (c : Largest base size l s b heap)
    (head_free : Ptr) (left : ℤ) (error : ℕ) (last_size : ℤ) (need : Bool) (last_allocate : ℤ) where
  abbrev pub state : Globals
  state = globals base size head_free left error l s last_size need last_allocate heap

  -- The loop ends, in `before`.
  walk_back-Back :
      (fuel : ℕ) {k : ℕ} {p before : Ptr}
      → Back base size heap k p before
      → k < fuel
      → walk_back fuel p state ≡ done before state
  unfolding walk_back
  walk_back-Back zero b lt = absurd (omega arith)
  walk_back-Back (suc fuel) at_null lt = refl
  walk_back-Back (suc fuel) (at_free {p} ok is_free) lt =
      simp (inside-ne-null base size p ok, ok, is_free)
  walk_back-Back (suc fuel) (over {k} {p} ok taken b) lt =
      simp (inside-ne-null base size p ok, ok, taken) (walk_back-Back fuel b (omega arith))

  abbrev choice : Ptr → Choice
  choice before = record { prev_free = before; next_to_allocate = l; size_to_allocate = pos b }

  choose-largest :
      (z : ℤ) (before : Ptr)
      → walk_back size (heap l).prev state ≡ done before state
      → choose z state ≡ done (choice before) state
  unfolding choose
  choose-largest z before back =
      let larger : leb_ℤ (pos c.s_bytes) (pos b) ≡ true = let h = c.no_smaller in ground arith in
      simp
        (
          inside-ne-null base size l c.l_inside,
          inside-ne-null base size s c.s_inside,
          c.l_inside,
          c.s_inside,
          c.next,
          c.s_is,
          at_next,
          distance,
          larger,
          to_int-pos b c.small,
        )
        (rw back)

  -- The state behind `place`: the block has left the head of the free list, if it stood there.
  abbrev taken : Ptr → Globals
  taken head_free' =
      globals base size head_free' left error s null last_size need last_allocate heap

  place-largest :
      (before : Ptr) (r : ℕ)
      → b < 40 + r
      → (h : Ptr) × (place (choice before) (pos r) state ≡ done tt (taken h))
  unfolding place take_whole
  place-largest before r short =
      let tight : leb_ℤ (pos (block_header + r + 8)) (pos b) ≡ false = ground arith in
      elim (Bool-cases (before == null)) [
        | inl first ↦
            ((heap l).next_free, simp (c.l_inside, c.next, at_next, pos-add-pos, tight, first))
        | inr later ↦ (head_free, simp (c.l_inside, c.next, at_next, pos-add-pos, tight, later))
      ]

  hand_out-largest :
      (n : ℤ) (h : Ptr)
      → (g : Globals) × (hand_out l n (taken h) ≡ done (l + block_header) g)
        × ((g.heap l).next ≡ l + block_header + b)
  unfolding hand_out
  hand_out-largest n h = (
    record (taken h) {
      global_head = region (head_of base size h (left -ℤ n));
      heap = update heap l (record (heap l) { next_free = null; status = allocated });
    },
    simp (c.l_inside, ==-refl, update-update),
    rw (==-refl l) c.next,
  )

  -- Let both caches be in use, neither of the two blocks be the last one of the region, the cached largest
  -- block have `b` bytes, no fewer than the second and too few to be cut for the request, and let the
  -- way back from it over allocated blocks to a free one or to the first be shorter than the region has
  -- bytes. A positive request for `n` bytes, no more than are left and held by an `int` when rounded up,
  -- is then answered with that block, its end as it was: also if `b` is less than `n`.
  pub mem_alloc-cached :
      (n k : ℕ) (before : Ptr)
      → 0 < n
      → n < 2 ^ 31 - 8
      → pos n ≤ℤ left
      → b < 40 + round_up n
      → Back base size heap k (heap l).prev before
      → k < size
      → (g : Globals) × (mem_alloc (pos n) state ≡ done (l + block_header) g)
        × ((g.heap l).next ≡ l + block_header + b)
  unfolding mem_alloc
  mem_alloc-cached n k before low small enough short back fuel =
      let (h, placed) = place-largest before (round_up n) short in
      let (g, handed, next) = hand_out-largest (pos n) h in
      let in_left : ltb_ℤ left (pos n) ≡ false = ground arith in
      let found : eqb_ℤ (pos b) (negsuc 0) ≡ false = ground arith in
      (
        g,
        rw
            (
              in_left,
              round_to-pos n 8 low (omega arith) (omega arith),
              choose-largest (pos (round_up n)) before (walk_back-Back size back fuel),
              found,
            )
            (rw (placed, handed)),
        next,
      )
