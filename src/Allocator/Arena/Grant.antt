-- ===== src/Allocator/Arena/Grant.antt =====
-- Handing out the block on top of an arena, in part or whole.
use opearting_system.Base.{
  ℕ, ◌+◌, ◌-◌, ◌%◌, ◌≤◌, ◌<◌, ◌≡◌, refl, ◌∙◌, ◌⊎◌, inl, inr, Bool, true, false, List, ◌∷◌, arith,
  ◌==◌, Bool-cases, ==-refl,
}
use opearting_system.Base.Int.{ℤ, pos, ◌-ℤ◌, leb_ℤ, ltb_ℤ, pos-add-pos, pos-sub-pos}
use opearting_system.Allocator.State.{Ptr, null, block_header, Node, Globals, inside, done, update}
use opearting_system.Allocator.Blocks.{get_block_size}
use opearting_system.Allocator.Alloc.{cut, cache_rest, split, take_whole, place, hand_out}
use opearting_system.Allocator.Facts.{
  inside-ne-null, update_self, update-ne, update-update, get_block_size_lem, sized,
}
use opearting_system.Allocator.Arena.Choose.{found}
use opearting_system.Allocator.Arena.{
  Block, block, used_node, top_node, Stack, above, Cached, globals, Top, Top-inside, cut-inside,
  Stack-frame, Arena, room, full,
}

module _ {base size : ℕ} {heap : Ptr → Node} {last top : Ptr} {k : ℕ}
    (t : Top base size heap last top k) (left : ℤ) (error : ℕ) (need : Bool) (last_allocate : ℤ)
    (r : ℕ) (low : 8 ≤ r) (fits : r + 8 ≤ k) where
  abbrev pub rest : Ptr
  rest = top + block_header + r

  abbrev pub cut_heap : (Ptr → Node)
  cut_heap = update (update heap rest (top_node top)) top (record (top_node last) { next = rest })

  rest-inside : inside base size rest ≡ true
  rest-inside = cut-inside t r low fits

  top-ne-rest : (top == rest) ≡ false
  top-ne-rest = ground arith

  abbrev pub cut_state : Ptr → Ptr → Globals
  cut_state l s = globals base size rest left error l s (pos k) need last_allocate cut_heap

  cut-top :
      (l s : Ptr)
      → cut null top rest
          (top_node last)
          (globals base size top left error l s (pos k) need last_allocate heap)
        ≡ done tt (cut_state l s)
  unfolding cut
  cut-top l s = simp (rest-inside, Top-inside t, update_self, update-update, top-ne-rest, t.is_top)

  -- The rest is the last block now.
  at-rest : cut_heap rest ≡ top_node top
  unfolding update
  at-rest = ground arith

  rest-size : (l s : Ptr) → get_block_size rest (cut_state l s) ≡ done (pos k) (cut_state l s)
  rest-size l s =
      get_block_size_lem (cut_state l s) rest rest-inside
      ∙ (rw (inside-ne-null base size rest rest-inside, at-rest))

  -- The caches after the cut: the rest is the largest block, or the second cache moves up.
  pub record Recached (s : Ptr) : Type 0 where
    pub largest : Ptr
    pub second : Ptr
    pub runs : cache_rest rest (cut_state top s) ≡ done tt (cut_state largest second)
    pub largest_cached : Cached base size largest
    pub second_cached : Cached base size second
    pub top_or_none : (largest ≡ null) ⊎ (second ≡ null) ⊎ (largest ≡ rest)

  pub recache : (s : Ptr) → Cached base size s → Recached s
  unfolding cache_rest
  recache s c =
      let (z, e) = sized (cut_state top s) s c in
      elim (Bool-cases (ltb_ℤ z (pos k))) [
        | inl less ↦ record {
          largest = rest;
          second = s;
          runs = simp (rest-size top s, e, less);
          largest_cached = inr rest-inside;
          second_cached = c;
          top_or_none = inr (inr refl);
        }
        | inr more ↦ record {
          largest = s;
          second = null;
          runs = simp (rest-size top s, e, more);
          largest_cached = c;
          second_cached = inl refl;
          top_or_none = inr (inl refl);
        }
      ]

  split-top :
      (s : Ptr) (q : Recached s)
      → split null top
          (pos r)
          (globals base size top left error top s (pos k) need last_allocate heap)
        ≡ done tt (
            globals base size rest left error q.largest q.second
              (pos (k - r))
              need
              last_allocate
              cut_heap)
  unfolding split
  split-top s q =
      let less : r ≤ k = omega arith in
      simp (Top-inside t, t.is_top, pos-add-pos, cut-top top s, q.runs, pos-sub-pos k r less)

  pub place-split :
      (s : Ptr) (q : Recached s)
      → place
          (found top k)
          (pos r)
          (globals base size top left error top s (pos k) need last_allocate heap)
        ≡ done tt (
            globals base size rest left error q.largest q.second
              (pos (k - r))
              need
              last_allocate
              cut_heap)
  unfolding place
  place-split s q =
      let enough : leb_ℤ (pos (r + 8)) (pos k) ≡ true = ground arith in
      simp (Top-inside t, t.is_top, pos-add-pos, enough) (split-top s q)

  abbrev pub granted_heap : (Ptr → Node)
  granted_heap = update (update heap rest (top_node top)) top (used_node rest last)

  abbrev pub granted_state : ℤ → Ptr → Ptr → Globals
  granted_state left' l s =
      globals base size rest left' error l s (pos (k - r)) need last_allocate granted_heap

  pub hand_out-top :
      (n : ℤ) (l s : Ptr)
      → hand_out top n
          (globals base size rest left error l s (pos (k - r)) need last_allocate cut_heap)
        ≡ done (top + block_header) (granted_state (left -ℤ n) l s)
  unfolding hand_out
  hand_out-top n l s = simp (Top-inside t, update_self, update-update)

  below-same : (a : Ptr) → a < top → granted_heap a ≡ heap a
  unfolding update
  below-same a h = ground arith

  at-rest-granted : granted_heap rest ≡ top_node top
  unfolding update
  at-rest-granted = ground arith

  rest-Top : k % 8 ≡ 0 → r % 8 ≡ 0 → Top base size granted_heap top rest (k - r)
  rest-Top whole whole' =
      let first = t.first in
      let room = t.fits in
      let small = t.small in
      record {
        is_top = at-rest-granted;
        first = omega arith;
        fits = omega arith;
        some_room = omega arith;
        whole = omega arith;
        small = omega arith;
      }

  pub granted-Arena :
      {xs : List Block} (left' : ℤ) (s : Ptr) (q : Recached s)
      → Stack base heap last top xs
      → r % 8 ≡ 0
      → Arena base size left' (k - r) (block top r ∷ xs) (granted_state left' q.largest q.second)
  granted-Arena left' s q stack mult =
      room (above (Stack-frame stack below-same) (update_self _ top (used_node rest last)) refl low)
        (rest-Top t.whole mult) q.largest_cached q.second_cached q.top_or_none

-- The whole block on top is handed out.
module _ {base size : ℕ} {heap : Ptr → Node} {last top : Ptr} {k : ℕ}
    (t : Top base size heap last top k) (left : ℤ) (error : ℕ) (need : Bool)
    (last_allocate : ℤ) where
  abbrev pub full_state : ℤ → Ptr → (Ptr → Node) → Globals
  full_state left' s h = globals base size null left' error s null (pos k) need (pos k) h

  pub place-whole :
      (s : Ptr)
      → place
          (found top k)
          (pos k)
          (globals base size top left error top s (pos k) need last_allocate heap)
        ≡ done tt (full_state left s heap)
  unfolding place take_whole
  place-whole s =
      let tight : leb_ℤ (pos (k + 8)) (pos k) ≡ false = ground arith in
      simp (Top-inside t, t.is_top, pos-add-pos, tight)

  pub hand_out-whole :
      (n : ℤ) (s : Ptr)
      → hand_out top n (full_state left s heap)
        ≡ done
            (top + block_header)
            (full_state (left -ℤ n) s (update heap top (used_node null last)))
  unfolding hand_out
  hand_out-whole n s = simp (Top-inside t, t.is_top, ==-refl, update-update)

  pub full-Arena :
      {xs : List Block} (left' : ℤ) (s : Ptr)
      → Stack base heap last top xs
      → Arena base size left' 0
          (block top k ∷ xs)
          (full_state left' s (update heap top (used_node null last)))
  full-Arena left' s stack =
      let fits = t.fits in
      full (Stack-frame stack (λ a h. update-ne heap top a (used_node null last) (omega arith)))
        (update_self heap top (used_node null last)) t.some_room (omega arith) (inr refl)
