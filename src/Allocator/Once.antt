-- ===== src/Allocator/Once.antt =====
-- A program that calls `Mem_Init` of hw5/mem.c again and again.
use opearting_system.Base.{
  ℕ, ◌+◌, ◌≤◌, ◌≡◌, refl, ap, ◌∙◌, true, false, not, ◌||◌, Option, none, some, List, [], ◌∷◌, ◌⊎◌,
  arith, Bool-cases, inl, inr, if◌then◌else◌,
}
use opearting_system.Base.Int.{ℤ, pos, pos_part, ◌<ℤ◌, leb_ℤ, eqb_ℤ}
use opearting_system.Allocator.State.{
  Ptr, e_bad_args, e_no_space, return_success, return_with_error, unset, map_failed, region,
  Globals, Run, done, fault, out_of_fuel, store, inside, update, null, free, zero_node, global_size,
  block_size,
}
use opearting_system.Allocator.Blocks.{round_to}
use opearting_system.Allocator.Init.{
  Estimate, mem_init, obtain, reject, set_up, unused, region_size,
}

-- A call, with what `getpagesize` and `mmap` return in it.
pub record Ask : Type 0 where
  pub estimate : Estimate
  pub page : ℕ
  pub mmap : ℤ → Option Ptr
  pub asked_size : ℤ

abbrev pub answer : Ask → Globals → Run ℤ
answer a = mem_init a.estimate a.page a.mmap a.asked_size

-- The calls that return success; a fault ends the program.
counted : (Globals → ℕ) → Run ℤ → ℕ
counted rest (done z g) = (if eqb_ℤ z return_success then 1 else 0) + rest g
counted rest fault = 0
counted rest out_of_fuel = 0

pub successes : List Ask → Globals → ℕ
successes [] g = 0
successes (a ∷ asks) g = counted (successes asks) (answer a g)

abbrev refused : Globals → Globals
refused g = record g { m_error = e_bad_args }

answer-refused :
    (a : Ask) (g : Globals)
    → not (unused g.global_head) || leb_ℤ a.asked_size (pos 0) ≡ true
    → answer a g ≡ done return_with_error (refused g)
unfolding mem_init reject
answer-refused a g e = simp e

answer-obtained :
    (a : Ask) (g : Globals)
    → not (unused g.global_head) || leb_ℤ a.asked_size (pos 0) ≡ false
    → answer a g
      ≡ obtain
          (a.mmap (region_size a.estimate a.page a.asked_size))
          (pos_part (region_size a.estimate a.page a.asked_size))
          a.asked_size
          g
unfolding mem_init reject
answer-obtained a g e = simp e

-- `global_head` is never set back: no call succeeds any more.
successes-used :
    (asks : List Ask) (g : Globals) → unused g.global_head ≡ false → successes asks g ≡ 0
unfolding successes counted
successes-used [] g e = refl
successes-used (a ∷ asks) g e = omega (
  arith,
  ap (counted (successes asks)) (answer-refused a g (ground (arith, e))),
  successes-used asks (refused g) e,
)

abbrev opened : Ptr → ℕ → ℤ → Globals → Globals
opened base length size g = record g {
  global_head = region (record {
    base = base;
    head = base + global_size;
    head_free = base + global_size;
    actual_size = length;
    remaining_size = size;
  });
  heap =
      update (λ _. zero_node) (base + global_size)
        (record { next = null; prev = null; next_free = null; status = free });
  last_block_size = round_to size block_size;
  largest = null;
  second_largest = null;
}

obtain-some :
    (base : Ptr) (length : ℕ) (size : ℤ) (g : Globals)
    → (obtain (some base) length size g ≡ fault)
      ⊎ (obtain (some base) length size g ≡ done return_success (opened base length size g))
unfolding obtain set_up store
obtain-some base length size g = elim (Bool-cases (inside base length (base + global_size))) [
  | inl e ↦ inr (simp e)
  | inr e ↦ inl (simp e)
]

counted-obtained :
    (asks : List Ask) (o : Option Ptr) (length : ℕ) (size : ℤ) (g : Globals)
    → counted (successes asks) (obtain o length size g) ≤ 1
unfolding counted obtain
counted-obtained asks none length size g =
    omega (
      arith,
      successes-used asks (record g { global_head = map_failed; m_error = e_no_space }) refl,
    )
counted-obtained asks (some base) length size g = elim (obtain-some base length size g) [
  | inl e ↦ omega (arith, ap (counted (successes asks)) e)
  | inr e ↦
      omega (
        arith,
        ap (counted (successes asks)) e,
        successes-used asks (opened base length size g) refl,
      )
]

-- Of any series of calls of `Mem_Init`, with whatever arguments and whatever `mmap` returns in each, at
-- most one succeeds.
pub mem_init-once : (asks : List Ask) (g : Globals) → successes asks g ≤ 1
unfolding successes counted
mem_init-once [] g = omega arith
mem_init-once (a ∷ asks) g =
    elim (Bool-cases (not (unused g.global_head) || leb_ℤ a.asked_size (pos 0))) [
      | inl e ↦ omega (
        arith,
        ap (counted (successes asks)) (answer-refused a g e),
        mem_init-once asks (refused g),
      )
      | inr e ↦ omega (
        arith,
        ap (counted (successes asks)) (answer-obtained a g e),
        counted-obtained asks (a.mmap (region_size a.estimate a.page a.asked_size))
            (pos_part (region_size a.estimate a.page a.asked_size)) a.asked_size g,
      )
    ]

-- After a call of `Mem_Init` with a positive size for which `mmap` fails, none succeeds: neither that
-- call nor any of the calls that follow it, whatever `mmap` returns in them.
pub mem_init-never :
    (a : Ask) (asks : List Ask) (g : Globals)
    → g.global_head ≡ unset
    → pos 0 <ℤ a.asked_size
    → a.mmap (region_size a.estimate a.page a.asked_size) ≡ none
    → successes (a ∷ asks) g ≡ 0
unfolding successes counted obtain
mem_init-never a asks g first more failed =
    let low : leb_ℤ a.asked_size (pos 0) ≡ false = ground arith in
    omega (
      arith,
      ap (counted (successes asks)) (
          answer-obtained a g (rw (first, low) refl)
          ∙ ap
              (λ o. obtain o (pos_part (region_size a.estimate a.page a.asked_size)) a.asked_size g)
              failed),
      successes-used asks (record g { global_head = map_failed; m_error = e_no_space }) refl,
    )
