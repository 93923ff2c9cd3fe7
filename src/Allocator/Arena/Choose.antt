-- ===== src/Allocator/Arena/Choose.antt =====
-- The search of `Mem_Alloc` in an arena finds the free block on top, if it is large enough.
use mathlib.Core.Bool.{or-true}
use opearting_system.Base.{
  ℕ, zero, suc, ◌+◌, ◌≤◌, ◌<◌, ◌≡◌, refl, ◌⊎◌, inl, inr, Bool, true, List, arith, length, ltb, ◌==◌,
  if◌then◌else◌, Bool-cases, ◌∙◌,
}
use opearting_system.Base.Int.{ℤ, pos, to_int-pos, leb_ℤ, sub_ℕ}
use opearting_system.Allocator.State.{Ptr, null, block_header, Node, Globals, inside, done}
use opearting_system.Allocator.Alloc.{Choice, no_choice, walk_back, scan, choose}
use opearting_system.Allocator.Facts.{inside_lem, inside-ne-null}
use opearting_system.Allocator.Arena.{
  Block, Stack, bottom, above, Cached, globals, Top, Top-inside, Stack-length,
}

-- Every block of a stack is allocated, so the walk back ends at NULL.
pub walk_back-Stack :
    (fuel base size : ℕ) {last end : Ptr} {xs : List Block} (head_free : Ptr) (left : ℤ) (error : ℕ)
    (l s : Ptr) (last_size : ℤ) (need : Bool) (last_allocate : ℤ) {heap : Ptr → Node}
    → Stack base heap last end xs
    → end ≤ base + size
    → length xs < fuel
    → let g = globals base size head_free left error l s last_size need last_allocate heap in
      walk_back fuel last g ≡ done null g
unfolding walk_back
walk_back-Stack zero base size hf left err l s z need la st fits h = absurd (omega arith)
walk_back-Stack (suc fuel) base size hf left err l s z need la (bottom e) fits h = refl
walk_back-Stack (suc fuel) base size hf left err l s z need la (above {p} st n e small) fits h =
    let ok = inside_lem base size p (omega (arith, Stack-length st)) (omega arith) in
    rw (inside-ne-null base size p ok, ok, n)
      (walk_back-Stack fuel base size hf left err l s z need la st (omega arith) (omega arith))

abbrev pub found : Ptr → ℕ → Choice
found top k = record { prev_free = null; next_to_allocate = top; size_to_allocate = pos k }

module _ {base size : ℕ} {heap : Ptr → Node} {last top : Ptr} {k : ℕ}
    (t : Top base size heap last top k) (left : ℤ) (error : ℕ) (need : Bool)
    (last_allocate : ℤ) where
  abbrev state : Ptr → Ptr → Globals
  state l s = globals base size top left error l s (pos k) need last_allocate heap

  -- One round of the scan, and the test that ends it.
  scan-top :
      (fuel r : ℕ) (s : Ptr)
      → 2 ≤ fuel
      → scan fuel (pos r) top null no_choice (state top s)
        ≡ done (if ltb r k then found top k else no_choice) (state top top)
  unfolding scan
  scan-top zero r s h = absurd (omega arith)
  scan-top (suc zero) r s h = absurd (omega arith)
  scan-top (suc (suc fuel)) r s h =
      let ok = Top-inside t in
      simp (inside-ne-null base size top ok, ok, t.is_top, to_int-pos k t.small) (ground arith)

  -- What the search leaves behind: the top block, or nothing if the request is no smaller.
  pub record Chosen (r : ℕ) (l s : Ptr) : Type 0 where
    pub choice : Choice
    pub second : Ptr
    pub runs : choose (pos r) (state l s) ≡ done choice (state top second)
    pub cached : Cached base size second
    pub outcome : (choice ≡ found top k) ⊎ ((choice ≡ no_choice) × (k ≤ r))

  -- The search by the free list.
  scanned :
      (r : ℕ) (l s m : Ptr)
      → choose (pos r) (state l s) ≡ scan size (pos r) top null no_choice (state top m)
      → Chosen r l s
  scanned r l s m e =
      let many : 2 ≤ size = let fits = t.fits in let first = t.first in omega arith in
      elim (Bool-cases (ltb r k)) [
        | inl less ↦ record {
          choice = found top k;
          second = top;
          runs = e ∙ scan-top size r m many ∙ (rw less);
          cached = inr (Top-inside t);
          outcome = inl refl;
        }
        | inr more ↦ record {
          choice = no_choice;
          second = top;
          runs = e ∙ scan-top size r m many ∙ (rw more);
          cached = inr (Top-inside t);
          outcome = inr (refl, ground arith);
        }
      ]

  module _ {xs : List Block} (stack : Stack base heap last top xs) (r : ℕ) where
    no_free_before : (s : Ptr) → walk_back size last (state top s) ≡ done null (state top s)
    no_free_before s =
        let fits = t.fits in
        walk_back-Stack size base size top left error top s (pos k) need last_allocate stack
          (omega arith) (omega (arith, Stack-length stack))

    abbrev second_bytes : Ptr → ℤ
    second_bytes s = if (heap s).next == null then pos k else sub_ℕ (heap s).next (s + block_header)

    -- Both caches in use: the largest one is the top block, and the search may be skipped.
    cached-choice : (s : Ptr) → inside base size s ≡ true → Chosen r top s
    unfolding choose
    cached-choice s in_s =
        let top_ne = inside-ne-null base size top (Top-inside t) in
        let s_ne = inside-ne-null base size s in_s in
        elim (Bool-cases (leb_ℤ (second_bytes s) (pos k))) [
          | inl larger ↦ record {
            choice = found top k;
            second = s;
            runs = simp (
              top_ne,
              s_ne,
              in_s,
              Top-inside t,
              t.is_top,
              larger,
              no_free_before s,
              to_int-pos k t.small,
            );
            cached = inr in_s;
            outcome = inl refl;
          }
          | inr smaller ↦
              scanned r top s s (simp (top_ne, s_ne, in_s, Top-inside t, t.is_top, smaller))
        ]

    pub choose-Chosen :
        (l s : Ptr) → Cached base size s → (l ≡ null) ⊎ (s ≡ null) ⊎ (l ≡ top) → Chosen r l s
    unfolding choose
    choose-Chosen l s c (inl e) = scanned r l s top (rw e)
    choose-Chosen l s c (inr (inl e)) = scanned r l s top (rw e (rw or-true))
    choose-Chosen l s (inl e) (inr (inr e')) = scanned r l s top (rw e (rw or-true))
    choose-Chosen l s (inr ok) (inr (inr e)) = rw e (cached-choice s ok)

-- With no free block the search ends at once.
pub choose-full :
    (base size : ℕ) (left : ℤ) (error : ℕ) (l s : Ptr) (last_size : ℤ) (need : Bool)
    (last_allocate : ℤ) (heap : Ptr → Node) (size' : ℤ)
    → 1 ≤ size
    → (l ≡ null) ⊎ (s ≡ null)
    → choose size' (globals base size null left error l s last_size need last_allocate heap)
      ≡ done no_choice
          (globals base size null left error null null last_size need last_allocate heap)
unfolding choose
choose-full base zero left error l s z need la heap size' h u = absurd (omega arith)
choose-full base (suc m) left error l s z need la heap size' h (inl e) = rw e
choose-full base (suc m) left error l s z need la heap size' h (inr e) = rw e (rw or-true)
