-- ===== src/Allocator/Arena/Start.antt =====
-- `Mem_Init` sets up an empty arena.
use opearting_system.Base.{
  ℕ, ◌+◌, ◌-◌, ◌*◌, ◌/◌, ◌%◌, ◌^◌, ◌≤◌, ◌<◌, ◌≡◌, ◌≢◌, refl, ap, inl, true, false, Option, some, [],
  arith,
}
use opearting_system.Base.Int.{ℤ, pos, leb_ℤ, pos-add-pos, pos-mul-pos, pos-div}
use opearting_system.Allocator.State.{
  Ptr, null, global_size, return_success, zero_node, Globals, initial, done, inside, update,
}
use opearting_system.Allocator.Init.{
  Estimate, aligned, worst, average, to_alloc, region_size, mem_init,
}
use opearting_system.Allocator.Facts.{inside_lem, update_self, round_to-pos}
use opearting_system.Allocator.Arena.{top_node, bottom, globals, Arena, room}
use opearting_system.Allocator.Arena.Step.{round_up}

-- The two estimates that leave room for a header to every block of eight bytes.
abbrev pub bytes_for : Estimate → ℕ → ℕ
bytes_for aligned n = round_up n / 8 * 32 + n
bytes_for worst n = round_up n * 40
bytes_for average n = round_up n / 16 * 40

to_alloc-pos :
    (e : Estimate) (n : ℕ) → 0 < n → n < 2 ^ 31 - 8 → to_alloc e (pos n) ≡ pos (bytes_for e n)
unfolding to_alloc
to_alloc-pos aligned n low high =
    rw (round_to-pos n 8 low (omega arith) (omega arith), pos-div, pos-mul-pos, pos-add-pos)
to_alloc-pos worst n low high =
    rw (round_to-pos n 8 low (omega arith) (omega arith), pos-div, pos-mul-pos)
      (ap pos (omega arith))
to_alloc-pos average n low high =
    rw (round_to-pos n 8 low (omega arith) (omega arith), pos-div, pos-mul-pos)

-- Rounding up to pages.
abbrev pub pages : ℕ → ℕ → ℕ
pages page n = (n - 1) / page * page + page

pub region_size-pages :
    (e : Estimate) (page n : ℕ)
    → 0 < n
    → n < 2 ^ 31 - 8
    → bytes_for e n + global_size < 2 ^ 31
    → pages page (bytes_for e n + global_size) < 2 ^ 31
    → region_size e page (pos n) ≡ pos (pages page (bytes_for e n + global_size))
unfolding region_size
region_size-pages e page n low high fits whole =
    rw (to_alloc-pos e n low high, pos-add-pos)
      (round_to-pos (bytes_for e n + global_size) page (omega arith) fits whole)

times-eight : (q m : ℕ) → (q * (8 * m) + 8 * m) % 8 ≡ 0
times-eight q m = omega arith

-- A whole number of pages covers what was asked for, and is a multiple of eight.
le-pages : (m n : ℕ) → 0 < m → 0 < n → n ≤ pages (8 * m) n
le-pages m n low low' = grind arith

pages-whole : (m n : ℕ) → pages (8 * m) n % 8 ≡ 0
pages-whole m n = times-eight ((n - 1) / (8 * m)) m

-- The region holds the heads, the bytes, and a header for every eight of them.
pub region-fits :
    (e : Estimate) (m n : ℕ)
    → e ≢ average
    → 0 < m
    → 0 < n
    → global_size + 5 * round_up n ≤ pages (8 * m) (bytes_for e n + global_size)
region-fits aligned m n usual page low = omega (
  arith,
  le-pages m (bytes_for aligned n + global_size) page (omega arith),
  pages-whole m (bytes_for aligned n + global_size),
)
region-fits worst m n usual page low =
    omega (arith, le-pages m (bytes_for worst n + global_size) page (omega arith))
region-fits average m n usual page low = absurd (usual refl)

-- The state behind a first `Mem_Init`.
abbrev pub fresh : (base size n : ℕ) → Globals
fresh base size n =
    globals base size (base + global_size) (pos n) 0 null null (pos (round_up n)) false (pos 0)
      (update (λ _. zero_node) (base + global_size) (top_node null))

pub fresh-Arena :
    (base size n : ℕ)
    → 0 < n
    → n < 2 ^ 31 - 8
    → global_size + 5 * round_up n ≤ size
    → Arena base size (pos n) (round_up n) [] (fresh base size n)
fresh-Arena base size n low high fits =
    room (bottom refl)
      (record {
        is_top = update_self (λ _. zero_node) (base + global_size) (top_node null);
        first = omega arith;
        fits = omega arith;
        some_room = omega arith;
        whole = omega arith;
        small = omega arith;
      })
      (inl refl) (inl refl) (inl refl)

-- `Mem_Init` in a state where it succeeds.
pub mem_init-fresh :
    (e : Estimate) (m n : ℕ) (mmap : ℤ → Option Ptr) (base : Ptr)
    → e ≢ average
    → 0 < m
    → 0 < n
    → n < 2 ^ 31 - 8
    → pages (8 * m) (bytes_for e n + global_size) < 2 ^ 31
    → mmap (pos (pages (8 * m) (bytes_for e n + global_size))) ≡ some base
    → mem_init e (8 * m) mmap (pos n) initial
      ≡ done return_success (fresh base (pages (8 * m) (bytes_for e n + global_size)) n)
unfolding mem_init
mem_init-fresh e m n mmap base usual page low high fits got =
    let length : ℕ = pages (8 * m) (bytes_for e n + global_size) in
    let in_region : inside base length (base + global_size) ≡ true =
      inside_lem base length (base + global_size) (omega arith)
        (omega (arith, region-fits e m n usual page low)) in
    let positive : leb_ℤ (pos n) (pos 0) ≡ false = ground arith in
    simp (
      region_size-pages e (8 * m) n low high
          (omega (arith, le-pages m (bytes_for e n + global_size) page (omega arith), fits)) fits,
      got,
      positive,
      in_region,
      round_to-pos n 8 low (omega arith) (omega arith),
    )

-- On its first call, with the aligned or the worst-case estimate, a page size that is a multiple of 8, and
-- a positive size that is below 2 ^ 31 - 8 and for which the length that is asked of `mmap`, with the
-- headers and in whole pages, is below 2 ^ 31, `Mem_Init` succeeds if `mmap` does, and leaves an empty
-- arena that holds the rounded size.
pub mem_init-Arena :
    (e : Estimate) (m n : ℕ) (mmap : ℤ → Option Ptr) (base : Ptr)
    → e ≢ average
    → 0 < m
    → 0 < n
    → n < 2 ^ 31 - 8
    → pages (8 * m) (bytes_for e n + global_size) < 2 ^ 31
    → mmap (pos (pages (8 * m) (bytes_for e n + global_size))) ≡ some base
    → (g : Globals) × (mem_init e (8 * m) mmap (pos n) initial ≡ done return_success g)
      × Arena base (pages (8 * m) (bytes_for e n + global_size)) (pos n) (round_up n) [] g
mem_init-Arena e m n mmap base usual page low high fits got =
    let size : ℕ = pages (8 * m) (bytes_for e n + global_size) in
    (
      fresh base size n,
      mem_init-fresh e m n mmap base usual page low high fits got,
      fresh-Arena base size n low high (region-fits e m n usual page low),
    )
