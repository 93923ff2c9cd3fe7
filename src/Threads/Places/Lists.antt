-- ===== src/Threads/Places/Lists.antt =====
-- Sums over lists, and what a write to one thread does to them.
use opearting_system.Base.{
  ℕ, ◌+◌, ◌≤◌, ◌≡◌, refl, ap, ◌∙◌, inl, inr, some, List, [], ◌∷◌, arith, ◌==◌, if◌then◌else◌,
  Bool-cases, All, ==-refl,
}
use opearting_system.Threads.State.{Thread, find_by_tid, modify}
use opearting_system.Base.Sums.{weigh, one}

module _ {R : Type 0} where
  -- What a write to a thread that is found does to a sum.
  pub weigh-modify :
      (w : Thread R → ℕ) (id : ℕ) (f : Thread R → Thread R) (ts : List (Thread R)) (t : Thread R)
      → find_by_tid id ts ≡ some t
      → weigh w (modify id f ts) + w t ≡ weigh w ts + w (f t)
  unfolding find_by_tid modify
  weigh-modify w id f [] t h = cc
  weigh-modify w id f (u ∷ ts) t h = elim (Bool-cases (u.tid == id)) [
    | inl e ↦ rw e (ground arith)
    | inr e ↦ rw e (ground (arith, weigh-modify w id f ts t))
  ]

  -- A thread that is found is one of the summands.
  pub weigh-find :
      (w : Thread R → ℕ) (id : ℕ) (ts : List (Thread R)) (t : Thread R)
      → find_by_tid id ts ≡ some t
      → w t ≤ weigh w ts
  unfolding find_by_tid
  weigh-find w id [] t h = cc
  weigh-find w id (u ∷ ts) t h = ground (arith, weigh-find w id ts t)

  -- A write that leaves the summand of every thread alone.
  pub weigh-modify_same :
      (w : Thread R → ℕ) (id : ℕ) (f : Thread R → Thread R)
      → ((t : Thread R) → w (f t) ≡ w t)
      → (ts : List (Thread R)) → weigh w (modify id f ts) ≡ weigh w ts
  unfolding modify
  weigh-modify_same w id f same [] = refl
  weigh-modify_same w id f same (t ∷ ts) = ground (arith, same t, weigh-modify_same w id f same ts)

  -- A thread is found exactly if one has the id.
  pub find-named :
      (x : ℕ) (ts : List (Thread R))
      → 1 ≤ weigh (λ t. one x t.tid) ts
      → (t : Thread R) × (find_by_tid x ts ≡ some t)
  unfolding find_by_tid
  find-named x [] h = absurd (omega arith)
  find-named x (t ∷ ts) h = elim (Bool-cases (t.tid == x)) [
    | inl e ↦ (t, rw e)
    | inr e ↦ rw e (find-named x ts (ground arith))
  ]

  pub named-find :
      (x : ℕ) (ts : List (Thread R)) (t : Thread R)
      → find_by_tid x ts ≡ some t
      → (1 ≤ weigh (λ t. one x t.tid) ts) × (t.tid ≡ x)
  unfolding find_by_tid
  named-find x [] t h = cc
  named-find x (u ∷ ts) t h = ground (arith, named-find x ts t)

  pub All-find {κ} :
      (P : Thread R → Type κ) (x : ℕ) (ts : List (Thread R)) (t : Thread R)
      → All P ts
      → find_by_tid x ts ≡ some t
      → P t
  unfolding find_by_tid
  All-find P x [] t a h = cc
  All-find P x (u ∷ ts) t a h = ground (arith, All-find P x ts t)

  pub All-modify {κ} :
      (P : Thread R → Type κ) (id : ℕ) (f : Thread R → Thread R)
      → ((t : Thread R) → P t → P (f t))
      → (ts : List (Thread R)) → All P ts
      → All P (modify id f ts)
  unfolding modify
  All-modify P id f keep [] a = a
  All-modify P id f keep (t ∷ ts) a = elim (Bool-cases (t.tid == id)) [
    | inl e ↦ rw e (keep t a.0, a.1)
    | inr e ↦ rw e (a.0, All-modify P id f keep ts a.1)
  ]

  -- What is found after a write.
  pub find-modify :
      (x id : ℕ) (f : Thread R → Thread R) (ts : List (Thread R)) (t : Thread R)
      → ((u : Thread R) → (f u).tid ≡ u.tid)
      → find_by_tid x ts ≡ some t
      → find_by_tid x (modify id f ts) ≡ some (if x == id then f t else t)
  unfolding find_by_tid modify
  find-modify x id f [] t same h = cc
  find-modify x id f (u ∷ ts) t same h = ground (arith, same u, find-modify x id f ts t same)

  pub find-modify_self :
      (id : ℕ) (f : Thread R → Thread R) (ts : List (Thread R)) (t : Thread R)
      → ((u : Thread R) → (f u).tid ≡ u.tid)
      → find_by_tid id ts ≡ some t
      → find_by_tid id (modify id f ts) ≡ some (f t)
  find-modify_self id f ts t same h =
      find-modify id id f ts t same h ∙ ap (λ b. some (if b then f t else t)) (==-refl id)
