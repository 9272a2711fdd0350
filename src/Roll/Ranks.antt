-- ===== src/Roll/Ranks.antt =====
-- A ranking deals out what it was given, and all of it (lib/roll-selection.mjs, rank).
use agent_bus.Shared.{
  All, Bool, Bool-cases, List, String, [], any, ap, arith, if◌then◌else◌, inl, inr, length, map,
  refl, true, ◌+◌, ◌∙◌, ◌∷◌, ◌≡◌, false,
}
use agent_bus.Roll.{Runtime, Scored, insert_ranked, rank, ranks_before, sort_ranked}

module _ {ℓ} {A : Type ℓ} (r : Runtime) where
  All-insert_ranked {κ} :
      (P : Scored A → Type κ) (x : Scored A) (xs : List (Scored A))
      → P x
      → All P xs
      → All P (insert_ranked r x xs)
  unfolding insert_ranked
  All-insert_ranked P x [] p h = (p, tt)
  All-insert_ranked P x (y ∷ ys) p h = elim (Bool-cases (ranks_before r x y)) [
    | inl e ↦ rw e (p, h)
    | inr e ↦ rw e (h.0, All-insert_ranked P x ys p h.1)
  ]

  All-sort_ranked {κ} :
      (P : Scored A → Type κ) (xs : List (Scored A)) → All P xs → All P (sort_ranked r xs)
  unfolding sort_ranked
  All-sort_ranked P [] h = tt
  All-sort_ranked P (x ∷ xs) h =
      All-insert_ranked P x (sort_ranked r xs) h.0 (All-sort_ranked P xs h.1)

  any-insert_ranked :
      (test : Scored A → Bool) (x : Scored A) (xs : List (Scored A))
      → any test (insert_ranked r x xs) ≡ (if test x then true else any test xs)
  unfolding insert_ranked
  any-insert_ranked test x [] = refl
  any-insert_ranked test x (y ∷ ys) = elim (Bool-cases (ranks_before r x y)) [
    | inl e ↦ rw e refl
    | inr e ↦ rw e (ground (arith, any-insert_ranked test x ys))
  ]

  any-sort_ranked :
      (test : Scored A → Bool) (xs : List (Scored A)) → any test (sort_ranked r xs) ≡ any test xs
  unfolding sort_ranked
  any-sort_ranked test [] = refl
  any-sort_ranked test (x ∷ xs) =
      any-insert_ranked test x (sort_ranked r xs)
      ∙ ap (λ (b : Bool). if test x then true else b) (any-sort_ranked test xs)

  length-insert_ranked :
      (x : Scored A) (xs : List (Scored A)) → length (insert_ranked r x xs) ≡ length xs + 1
  unfolding insert_ranked
  length-insert_ranked x [] = omega arith
  length-insert_ranked x (y ∷ ys) = elim (Bool-cases (ranks_before r x y)) [
    | inl e ↦ rw e (omega arith)
    | inr e ↦ rw e (omega (arith, length-insert_ranked x ys))
  ]

  length-sort_ranked : (xs : List (Scored A)) → length (sort_ranked r xs) ≡ length xs
  unfolding sort_ranked
  length-sort_ranked [] = refl
  length-sort_ranked (x ∷ xs) =
      omega (arith, length-insert_ranked x (sort_ranked r xs), length-sort_ranked xs)

pub All-of_no_any {ℓ} :
    {A : Type ℓ} (test : A → Bool) (xs : List A)
    → any test xs ≡ false
    → All (λ x. test x ≡ false) xs
All-of_no_any test [] h = tt
All-of_no_any test (x ∷ xs) h = (ground arith, All-of_no_any test xs (ground arith))

module _ {ℓ μ} {A : Type ℓ} {B : Type μ} where
  pub All-map {κ} :
      (P : B → Type κ) (f : A → B) (xs : List A) → All (λ x. P (f x)) xs → All P (map f xs)
  All-map P f [] h = tt
  All-map P f (x ∷ xs) h = (h.0, All-map P f xs h.1)

  pub All-of_map {κ} :
      (P : B → Type κ) (f : A → B) (xs : List A) → All P (map f xs) → All (λ x. P (f x)) xs
  All-of_map P f [] h = tt
  All-of_map P f (x ∷ xs) h = (h.0, All-of_map P f xs h.1)

  pub any-map :
      (test : B → Bool) (f : A → B) (xs : List A) → any test (map f xs) ≡ any (λ x. test (f x)) xs
  any-map test f [] = refl
  any-map test f (x ∷ xs) = ap (λ (b : Bool). if test (f x) then true else b) (any-map test f xs)

  pub length-map : (f : A → B) (xs : List A) → length (map f xs) ≡ length xs
  length-map f [] = refl
  length-map f (x ∷ xs) = omega (arith, length-map f xs)

module _ {ℓ} {A : Type ℓ} (r : Runtime) (id_for : A → String) (items : List A)
    (input : String) where
  pub All-rank {κ} : (P : A → Type κ) → All P items → All P (rank r id_for items input)
  unfolding rank
  All-rank P h =
      All-map P (λ s. s.item) _
        (All-sort_ranked r (λ s. P s.item) _ (All-map (λ (s : Scored A). P s.item) _ items h))

  pub any-rank : (test : A → Bool) → any test (rank r id_for items input) ≡ any test items
  unfolding rank
  any-rank test =
      any-map test (λ (s : Scored A). s.item) _
      ∙ any-sort_ranked r (λ s. test s.item) _
      ∙ any-map (λ (s : Scored A). test s.item) _ items

  pub length-rank : length (rank r id_for items input) ≡ length items
  unfolding rank
  length-rank =
      length-map (λ (s : Scored A). s.item) _ ∙ length-sort_ranked r _ ∙ length-map _ items
