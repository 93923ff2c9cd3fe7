-- ===== src/Threads/Least.antt =====
-- A priority queue as a list from which the first of the least costs is taken.
use opearting_system.Base.Sums.{weigh}
use opearting_system.Base.{
  ℕ, ◌+◌, ◌≡◌, refl, List, [], ◌∷◌, arith, if◌then◌else◌, All, Bool-cases, if_cases, inl, inr,
}
use opearting_system.Base.Int.{leb_ℤ, ◌≤ℤ◌}
use opearting_system.Threads.State.{Job}
use opearting_system.Threads.Places.Choose.{IsPriorityQueue}

pub extract_least : Job → List Job → Job × List Job
extract_least j [] = (j, [])
extract_least j (k ∷ ks) =
    let (m, rest) = extract_least k ks in if leb_ℤ j.cost m.cost then (j, k ∷ ks) else (m, j ∷ rest)

keeps :
    (f : Job → ℕ) (j : Job) (js : List Job)
    → f (extract_least j js).0 + weigh f (extract_least j js).1 ≡ f j + weigh f js
unfolding extract_least
keeps f j [] = refl
keeps f j (k ∷ ks) = elim (Bool-cases (leb_ℤ j.cost (extract_least k ks).0.cost)) [
  | inl e ↦ rw e refl
  | inr e ↦ rw e (omega (arith, keeps f k ks))
]

All-le :
    (j m : Job) (ks : List Job)
    → j.cost ≤ℤ m.cost
    → All (λ k. m.cost ≤ℤ k.cost) ks
    → All (λ k. j.cost ≤ℤ k.cost) ks
All-le j m [] h a = tt
All-le j m (k ∷ ks) h a = (omega (arith, a.0), All-le j m ks h a.1)

-- What is taken comes before all.
least-All : (j : Job) (js : List Job) → All (λ k. (extract_least j js).0.cost ≤ℤ k.cost) (j ∷ js)
unfolding extract_least
least-All j [] = (omega arith, tt)
least-All j (k ∷ ks) =
    if_cases (λ (r : Job × List Job). All (λ x. r.0.cost ≤ℤ x.cost) (j ∷ k ∷ ks))
      (leb_ℤ j.cost (extract_least k ks).0.cost)
      (λ e. (omega arith, All-le j (extract_least k ks).0 (k ∷ ks) (ground arith) (least-All k ks)))
      (λ e. (ground arith, least-All k ks))

All-rest :
    (P : Job → Type 0) (j : Job) (js : List Job) → All P (j ∷ js) → All P (extract_least j js).1
unfolding extract_least
All-rest P j [] a = tt
All-rest P j (k ∷ ks) a = elim (Bool-cases (leb_ℤ j.cost (extract_least k ks).0.cost)) [
  | inl e ↦ rw e a.1
  | inr e ↦ rw e (a.0, All-rest P k ks a.1)
]

pub extract_least-IsPriorityQueue : IsPriorityQueue extract_least
extract_least-IsPriorityQueue = record {
  keeps = keeps;
  least = λ j js. All-rest (λ k. (extract_least j js).0.cost ≤ℤ k.cost) j js (least-All j js);
}
