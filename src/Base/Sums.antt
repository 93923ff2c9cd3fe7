-- ===== src/Base/Sums.antt =====
-- Sums over lists, and how often a number stands in one.
use Prim.Native.Nat.{ℕ, zero, suc, ◌+◌, ◌≤◌, ◌<◌}
use mathlib.Core.Path.{◌≡◌, sym, subst}
use mathlib.Core.Logic.{◌⊎◌, inl, inr}
use mathlib.Core.List.{List, [], ◌∷◌, ◌++◌}
use native.Mathlib.Omega.{arith}
use native.Mathlib.Decide.{dec_lt}
use opearting_system.Base.Tests.{◌==◌, if◌then◌else◌, Bool-cases}

abbrev pub weigh {ℓ} : {A : Type ℓ} → (A → ℕ) → List A → ℕ
weigh f [] = 0
weigh f (x ∷ xs) = f x + weigh f xs

abbrev pub one : ℕ → ℕ → ℕ
one x y = if y == x then 1 else 0

pub one_self : (x : ℕ) → one x x ≡ 1
one_self x = ground arith

pub one_cases : (x y : ℕ) → ((x ≡ y) × (one x y ≡ 1)) ⊎ (one x y ≡ 0)
one_cases x y = elim (Bool-cases (y == x)) [
  | inl e ↦ inl (ground arith, ground arith)
  | inr e ↦ inr (ground arith)
]

pub weigh-append {ℓ} :
    {A : Type ℓ} (f : A → ℕ) (xs ys : List A) → weigh f (xs ++ ys) ≡ weigh f xs + weigh f ys
weigh-append f [] ys = omega arith
weigh-append f (x ∷ xs) ys = omega (arith, weigh-append f xs ys)

-- One more at the end.
pub weigh-snoc {ℓ} :
    {A : Type ℓ} (f : A → ℕ) (xs : List A) (x : A) → weigh f (xs ++ x ∷ []) ≡ weigh f xs + f x
weigh-snoc f xs x = omega (arith, weigh-append f xs (x ∷ []))

abbrev pub occurs : ℕ → List ℕ → ℕ
occurs x xs = weigh (one x) xs

-- f(0) + … + f(n - 1)
unfoldable pub total : ℕ → (ℕ → ℕ) → ℕ
total zero f = 0
total (suc n) f = total n f + f n

pub total-le : (n : ℕ) (f g : ℕ → ℕ) → ((x : ℕ) → x < n → f x ≤ g x) → total n f ≤ total n g
unfolding total
total-le zero f g h = omega arith
total-le (suc n) f g h =
    ground (arith, total-le n f g (λ x lt. h x (omega arith)), h n (omega arith))

-- One term grows by d and none falls.
pub total-raise :
    (n : ℕ) (f g : ℕ → ℕ) (i d : ℕ)
    → i < n
    → f i + d ≤ g i
    → ((x : ℕ) → f x ≤ g x)
    → total n f + d ≤ total n g
unfolding total
total-raise zero f g i d lt own h = absurd (omega arith)
total-raise (suc n) f g i d lt own h = elim (dec_lt i n) [
  | yes before ↦ ground (arith, total-raise n f g i d before own h, h n)
  | no last ↦
      let at_end : n ≡ i = omega arith in
      ground (arith, total-le n f g (λ x lt. h x), subst (λ z. f z + d ≤ g z) (sym at_end) own)
]
