-- ===== src/Shared/Sorting.antt =====
-- `xs.sort((a, b) => a - b)` on a list of numbers, as an insertion sort.
use Prim.Native.Nat.{ℕ, ◌<◌}
use mathlib.Core.Path.{◌≡◌}
use mathlib.Core.Logic.{◌≢◌, inl, inr}
use mathlib.Core.Bool.{false}
use mathlib.Core.List.{List, [], ◌∷◌, ◌++◌}
use native.Mathlib.Omega.{arith}
use agent_bus.Shared.Tests.{leb, if◌then◌else◌, Bool-cases}
use agent_bus.Shared.Lists.{All, All-append, includes}

unfoldable pub insert_sorted : ℕ → List ℕ → List ℕ
insert_sorted n [] = n ∷ []
insert_sorted n (x ∷ xs) = let rest = insert_sorted n xs in if leb n x then n ∷ x ∷ xs else x ∷ rest

unfoldable pub sort_numbers : List ℕ → List ℕ
unfolding insert_sorted
sort_numbers [] = []
sort_numbers (x ∷ xs) = insert_sorted x (sort_numbers xs)

-- Strictly increasing.
abbrev pub Increasing : List ℕ → Type 0
Increasing [] = Unit
Increasing (x ∷ xs) = All (λ y. x < y) xs × Increasing xs

All-mono {κ μ} :
    (P : ℕ → Type κ) (Q : ℕ → Type μ) (xs : List ℕ) → ((x : ℕ) → P x → Q x) → All P xs → All Q xs
All-mono P Q [] f h = tt
All-mono P Q (x ∷ xs) f h = (f x h.0, All-mono P Q xs f h.1)

All-insert_sorted {κ} :
    (P : ℕ → Type κ) (n : ℕ) (xs : List ℕ) → P n → All P xs → All P (insert_sorted n xs)
unfolding insert_sorted
All-insert_sorted P n [] p h = (p, tt)
All-insert_sorted P n (x ∷ xs) p h = elim (Bool-cases (leb n x)) [
  | inl e ↦ rw e (p, h)
  | inr e ↦ rw e (h.0, All-insert_sorted P n xs p h.1)
]

-- What holds of every number of a list holds of every number of the sorted list.
pub All-sort_numbers {κ} : (P : ℕ → Type κ) (xs : List ℕ) → All P xs → All P (sort_numbers xs)
unfolding sort_numbers
All-sort_numbers P [] h = tt
All-sort_numbers P (x ∷ xs) h =
    All-insert_sorted P x (sort_numbers xs) h.0 (All-sort_numbers P xs h.1)

insert_sorted-Increasing :
    (n : ℕ) (xs : List ℕ) → All (λ y. y ≢ n) xs → Increasing xs → Increasing (insert_sorted n xs)
unfolding insert_sorted
insert_sorted-Increasing n [] h s = (tt, tt)
insert_sorted-Increasing n (x ∷ xs) h s = elim (Bool-cases (leb n x)) [
  | inl e ↦
      let lt : n < x = ground arith in
      rw e ((lt, All-mono (λ y. x < y) (λ y. n < y) xs (λ y q. omega arith) s.0), s)
  | inr e ↦
      let gt : x < n = ground arith in
      rw e (All-insert_sorted (λ y. x < y) n xs gt s.0, insert_sorted-Increasing n xs h.1 s.1)
]

-- A new number behind an increasing list is sorted into its place.
pub sort_numbers-Increasing :
    (xs : List ℕ) (v : ℕ)
    → Increasing xs
    → All (λ y. y ≢ v) xs
    → Increasing (sort_numbers (xs ++ v ∷ []))
unfolding sort_numbers
sort_numbers-Increasing [] v s h = (tt, tt)
sort_numbers-Increasing (x ∷ xs) v s h =
    insert_sorted-Increasing x (sort_numbers (xs ++ v ∷ []))
      (All-sort_numbers (λ y. y ≢ x) (xs ++ v ∷ [])
        (All-append (λ y. y ≢ x) xs (v ∷ [])
          (All-mono (λ y. x < y) (λ y. y ≢ x) xs (λ y q. omega arith) s.0)
          ((λ e. h.0 (omega arith)), tt)))
      (sort_numbers-Increasing xs v s.1 h.1)

pub ne_of_includes : (v : ℕ) (xs : List ℕ) → includes v xs ≡ false → All (λ y. y ≢ v) xs
ne_of_includes v [] h = tt
ne_of_includes v (x ∷ xs) h = (ground arith, ne_of_includes v xs (ground arith))

pub insert_sorted-ne-nil : (n : ℕ) (xs : List ℕ) → insert_sorted n xs ≢ []
unfolding insert_sorted
insert_sorted-ne-nil n [] h = cc
insert_sorted-ne-nil n (x ∷ xs) h = ground arith
