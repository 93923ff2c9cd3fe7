-- ===== src/Allocator/Arena/Release.antt =====
-- `Mem_Free`, without coalescing, of a block of an arena.
use mathlib.Core.Path.{subst}
use mathlib.Core.Bool.{or-true, and-false}
use opearting_system.Base.{
  ℕ, ◌+◌, ◌-◌, ◌≤◌, ◌<◌, ◌≡◌, refl, ap, ◌∙◌, inl, inr, Bool, true, false, List, [], ◌∷◌, ◌++◌,
  arith, ltb, ◌==◌, Bool-cases, ==-refl,
}
use opearting_system.Base.Int.{ℤ, pos, ◌+ℤ◌, ltb_ℤ, eqb_ℤ, sub_ℕ, sub_ℕ-le}
use opearting_system.Allocator.State.{
  Ptr, null, free, block_header, global_size, return_success, return_with_error, Node, Head, region,
  Globals, Run, inside, done, update, set_status,
}
use opearting_system.Allocator.Blocks.{get_block_size, is_valid_addr}
use opearting_system.Allocator.Alloc.{walk_back}
use opearting_system.Allocator.Free.{
  give_back, merge, insert_free, note_freed, free_block, mem_free,
}
use opearting_system.Allocator.Facts.{
  inside_lem, inside-ne-null, update_self, update-ne, update-update, get_block_size_lem, sized,
}
use opearting_system.Allocator.Arena.{
  Block, block, used_node, Stack, bottom, above, Cached, globals, Top, Arena, room, full,
  Stack-length, Stack-frame,
}
use opearting_system.Allocator.Arena.Choose.{walk_back-Stack}

-- A block `p` of `r` bytes, with the stack of those before it.
pub record BlockAt (base : ℕ) (heap : Ptr → Node) (end p : Ptr) (r : ℕ) : Type 0 where
  pub previous : Ptr
  pub others : List Block
  pub under : Stack base heap previous p others
  pub header : heap p ≡ used_node (p + block_header + r) previous
  pub ends : p + block_header + r ≤ end
  pub starts : base + global_size ≤ p

Stack-first :
    {base : ℕ} {heap : Ptr → Node} {last end : Ptr} {xs : List Block}
    → Stack base heap last end xs
    → base + global_size ≤ end
Stack-first (bottom e) = omega arith
Stack-first (above s n e small) = omega (arith, Stack-first s)

-- Each block of a stack is one.
pub Stack-BlockAt :
    {base : ℕ} {heap : Ptr → Node} {last end : Ptr} (xs ys : List Block) (p : Ptr) (r : ℕ)
    → Stack base heap last end (xs ++ block p r ∷ ys)
    → BlockAt base heap end p r
Stack-BlockAt {base} {heap} [] ys p r (above {q} s n e small) = record {
  previous = q;
  others = ys;
  under = s;
  header = subst (λ z. heap p ≡ used_node z q) e n;
  ends = omega arith;
  starts = Stack-first s;
}
Stack-BlockAt (x ∷ xs) ys p r (above s n e small) =
    let b = Stack-BlockAt xs ys p r s in
    let ends = b.ends in
    record {
      previous = b.previous;
      others = b.others;
      under = b.under;
      header = b.header;
      ends = omega arith;
      starts = b.starts;
    }

module _ {base size : ℕ} {heap : Ptr → Node} {last top : Ptr} {k : ℕ}
    (t : Top base size heap last top k) (left : ℤ) (error : ℕ) (last_allocate : ℤ) (p : Ptr) (r : ℕ)
    (b : BlockAt base heap top p r) where
  -- The arena with block `p` at the front of the free list.
  abbrev freed_heap : (Ptr → Node)
  freed_heap =
      update heap p
        (record (used_node (p + block_header + r) b.previous) { next_free = top; status = free })

  abbrev freed_state : Ptr → Ptr → Globals
  freed_state l s =
      globals base size p (left +ℤ pos r) error l s (pos k) true last_allocate freed_heap

  block_inside : inside base size p ≡ true
  block_inside =
      let ends = b.ends in
      let starts = b.starts in
      let fits = t.fits in
      let some_room = t.some_room in inside_lem base size p (omega arith) (omega arith)

  at_end : sub_ℕ (p + block_header + r) (p + block_header) ≡ pos r
  at_end = sub_ℕ-le (p + block_header + r) (p + block_header) (omega arith) ∙ ap pos (omega arith)

  valid :
      (l s : Ptr) (need : Bool)
      → is_valid_addr
          (p + block_header)
          (globals base size top left error l s (pos k) need last_allocate heap)
        ≡ done true (globals base size top left error l s (pos k) need last_allocate heap)
  unfolding is_valid_addr
  valid l s need =
      let ends = b.ends in
      let starts = b.starts in
      let fits = t.fits in
      let some_room = t.some_room in
      let above_head : ltb (base + global_size) (p + block_header) ≡ true = ground arith in
      let below_end : ltb (p + block_header) (base + global_size + size) ≡ true = ground arith in
      let header : (p + block_header - block_header) ≡ p = omega arith in
      simp (above_head, below_end, header, block_inside, b.header)

  abbrev used_state : ℤ → Ptr → Ptr → Globals
  used_state left' l s = globals base size top left' error l s (pos k) true last_allocate heap

  not_last : (p + block_header + r == null) ≡ false
  not_last = let starts = b.starts in ground arith

  used-size :
      (l s : Ptr) → get_block_size p (used_state left l s) ≡ done (pos r) (used_state left l s)
  used-size l s =
      get_block_size_lem (used_state left l s) p block_inside
      ∙ (simp (inside-ne-null base size p block_inside, b.header, not_last, at_end))

  give_back-used :
      (l s : Ptr)
      → give_back p (pos r) (used_state left l s) ≡ done tt (used_state (left +ℤ pos r) l s)
  unfolding give_back
  give_back-used l s = simp (block_inside, b.header, not_last)

  abbrev unlinked : Node
  unlinked = record (used_node (p + block_header + r) b.previous) { status = free }

  abbrev unlinked_state : Ptr → Ptr → Globals
  unlinked_state l s =
      globals base size top (left +ℤ pos r) error l s (pos k) true last_allocate
        (update heap p unlinked)

  set_status-used :
      (l s : Ptr)
      → set_status p free (used_state (left +ℤ pos r) l s) ≡ done tt (unlinked_state l s)
  unfolding set_status
  set_status-used l s = simp (block_inside, b.header)

  no_free_before :
      (l s : Ptr) → walk_back size b.previous (unlinked_state l s) ≡ done null (unlinked_state l s)
  no_free_before l s =
      let ends = b.ends in
      let fits = t.fits in
      let under = Stack-frame b.under (λ a h. update-ne heap p a unlinked (omega arith)) in
      walk_back-Stack size base size top (left +ℤ pos r) error l s (pos k) true last_allocate under
        (omega arith) (omega (arith, Stack-length b.under))

  -- The blocks before it are allocated, so it becomes the first free block.
  insert-first : (l s : Ptr) → insert_free false p (unlinked_state l s) ≡ done tt (freed_state l s)
  unfolding insert_free
  insert-first l s =
      simp (block_inside, ==-refl)
        (rw (no_free_before l s) (simp (block_inside, ==-refl, update-update)))

  -- The block counts as a candidate for the caches, and nothing else changes.
  record Noted (l s : Ptr) : Type 0 where
    pub largest : Ptr
    pub second : Ptr
    pub runs : note_freed p (freed_state l s) ≡ done tt (freed_state largest second)

  freed-size : (l s : Ptr) → get_block_size p (freed_state l s) ≡ done (pos r) (freed_state l s)
  freed-size l s =
      get_block_size_lem (freed_state l s) p block_inside
      ∙ (simp (inside-ne-null base size p block_inside, update_self, not_last, at_end))

  noted : (l s : Ptr) → Cached base size l → Cached base size s → Noted l s
  unfolding note_freed
  noted l s (inl e) cs = record { largest = null; second = s; runs = rw e }
  noted l s (inr ok) (inl e) = record { largest = l; second = null; runs = rw e (rw or-true) }
  noted l s (inr ok) (inr ok') =
      let (x, ex) = sized (freed_state l s) l (inr ok) in
      let (y, ey) = sized (freed_state l s) s (inr ok') in
      let l_ne = inside-ne-null base size l ok in
      let s_ne = inside-ne-null base size s ok' in
      elim (Bool-cases (ltb_ℤ x (pos r))) [
        | inl more ↦ record {
          largest = p;
          second = l;
          runs = simp (l_ne, s_ne, freed-size l s, ex, ey, more);
        }
        | inr less ↦ elim (Bool-cases (ltb_ℤ y (pos r))) [
          | inl more ↦ record {
            largest = l;
            second = p;
            runs = simp (l_ne, s_ne, freed-size l s, ex, ey, less, more);
          }
          | inr less' ↦ record {
            largest = l;
            second = s;
            runs = simp (l_ne, s_ne, freed-size l s, ex, ey, less, less');
          }
        ]
      ]

  free_block-used :
      (l s : Ptr) (m : Noted l s)
      → free_block p false (used_state left l s)
        ≡ done return_success (freed_state m.largest m.second)
  unfolding free_block merge
  free_block-used l s m =
      let sane : eqb_ℤ (pos r) return_with_error ≡ false = ground arith in
      simp (used-size l s, sane, give_back-used l s, set_status-used l s, insert-first l s, m.runs)

abbrev pub head_of : (base size : ℕ) → Ptr → ℤ → Head
head_of base size head_free left = record {
  base = base;
  head = base + global_size;
  head_free = head_free;
  actual_size = size;
  remaining_size = left;
}

-- What `Mem_Free` without coalescing does to the block at `p`: `g` is the state before.
pub data Freed (base size : ℕ) (left : ℤ) (p : Ptr) (r : ℕ) (g : Globals) : Run ℤ → Type 0 where
  freed :
      {g' : Globals} (top previous : Ptr)
      → g.global_head ≡ region (head_of base size top left)
      → g'.global_head ≡ region (head_of base size p (left +ℤ pos r))
      → (g.heap p ≡ used_node (p + block_header + r) previous)
      → g'.heap
        ≡ update g.heap p (record {
          next = p + block_header + r;
          prev = previous;
          next_free = top;
          status = free;
        })
      → g'.last_block_size ≡ g.last_block_size
      → g'.need_global_coalesce ≡ true
      → Freed base size left p r g (done return_success g')

-- In an arena with a free block, `Mem_Free` of a block's payload without coalescing succeeds: the
-- block's rounded bytes go to `remaining_size`, its header becomes free and heads the free list, and
-- no other header changes.
pub mem_free-Freed :
    {base size k : ℕ} {left : ℤ} {xs : List Block} {g : Globals} (ys zs : List Block) (p : Ptr)
    (r : ℕ)
    → Arena base size left k xs g
    → 0 < k
    → xs ≡ ys ++ block p r ∷ zs
    → Freed base size left p r g (mem_free (p + block_header) false g)
unfolding mem_free
mem_free-Freed {base} {size} {left} ys zs p r
      (room {last} {top} {k} {xs} {error} {l} {s} {need} {last_allocate} {heap} stack t cl cs u)
      some e =
    let b = Stack-BlockAt ys zs p r (subst (λ x. Stack base heap last top x) e stack) in
    let m = noted t left error last_allocate p r b l s cl cs in
    let not_null : (p + block_header == null) ≡ false = ground arith in
    let header : p + block_header - block_header ≡ p = omega arith in
    rw (not_null, and-false, valid t left error last_allocate p r b l s true)
      (rw (header, free_block-used t left error last_allocate p r b l s m)
        (freed top b.previous refl refl b.header refl refl refl))
mem_free-Freed ys zs p r (full stack e low fit u) some e' = absurd (omega arith)
