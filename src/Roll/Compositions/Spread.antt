-- ===== src/Roll/Compositions/Spread.antt =====
-- How many compositions a round deals, and that it repeats none (lib/roll-selection.mjs).
-- No two candidates have one id.
use agent_bus.Shared.{
  All, All-append, Bool, Bool-cases, List, String, [], any, ap, arith, eq_iff, false, if◌then◌else◌,
  inl, inr, leb, length, length-append, refl, str_eq, sym, true, ℕ, ◌++◌, ◌<◌, ◌∙◌, ◌∷◌, ◌≡◌, ◌≤◌,
  filter, not,
}
use agent_bus.Roll.{Candidate, has_id, is_number}
use mathlib.Core.Bool.{false≢true}
use agent_bus.Roll.Compositions.{family, has_family, pick_families, top_up, composition_tickets}
use mathlib.Core.Path.{subst}
use agent_bus.Roll.Ranks.{All-of_no_any}

abbrev pub NoRepeat : List Candidate → Type 0
NoRepeat [] = Unit
NoRepeat (c ∷ cs) = All (λ d. str_eq c.id d.id ≡ false) cs × NoRepeat cs

NoRepeat-append :
    (picks : List Candidate) (c : Candidate)
    → NoRepeat picks
    → All (λ d. str_eq d.id c.id ≡ false) picks
    → NoRepeat (picks ++ c ∷ [])
NoRepeat-append [] c h k = (tt, tt)
NoRepeat-append (p ∷ ps) c h k = (
  All-append (λ d. str_eq p.id d.id ≡ false) ps (c ∷ []) h.0 (k.0, tt),
  NoRepeat-append ps c h.1 k.1,
)

-- Where the id of a candidate determines its family, another family is another id.
apart_of_family :
    (f : String → String) (c : Candidate) (picks : List Candidate)
    → family c ≡ f c.id
    → All (λ d. family d ≡ f d.id) picks
    → All (λ d. str_eq (family d) (family c) ≡ false) picks
    → All (λ d. str_eq d.id c.id ≡ false) picks
apart_of_family f c [] e h k = tt
apart_of_family f c (p ∷ ps) e h k = (differs, apart_of_family f c ps e h.1 k.1)
  where
    differs : str_eq p.id c.id ≡ false
    differs = elim (Bool-cases (str_eq p.id c.id)) [
      | inr n ↦ n
      | inl y ↦ absurd (
          false≢true (
            sym (k.0)
            ∙ (eq_iff (family p) (family c)).1 (h.0 ∙ ap f ((eq_iff p.id c.id).0 y) ∙ sym e)))
    ]

pub NoRepeat-pick_families :
    (f : String → String) (n : ℕ) (picks cs : List Candidate)
    → All (λ d. family d ≡ f d.id) picks
    → All (λ d. family d ≡ f d.id) cs
    → NoRepeat picks
    → NoRepeat (pick_families n picks cs)
unfolding pick_families
NoRepeat-pick_families f n picks [] h k d = d
NoRepeat-pick_families f n picks (c ∷ cs) h k d = elim (Bool-cases (has_family (family c) picks)) [
  | inl e ↦ rw e (NoRepeat-pick_families f n picks cs h k.1 d)
  | inr e ↦
      let apart =
        apart_of_family f c picks k.0 h
          (All-of_no_any (λ d. str_eq (family d) (family c)) picks e) in
      let added = NoRepeat-append picks c d apart in
      elim (Bool-cases (leb n (length (picks ++ c ∷ [])))) [
        | inl l ↦ rw e (rw l added)
        | inr l ↦ rw e (
            rw l (
              NoRepeat-pick_families f n (picks ++ c ∷ []) cs
                (All-append (λ d. family d ≡ f d.id) picks (c ∷ []) h (k.0, tt)) k.1 added))
      ]
]

pub NoRepeat-top_up :
    (n : ℕ) (picks cs : List Candidate) → NoRepeat picks → NoRepeat (top_up n picks cs)
unfolding top_up
NoRepeat-top_up n picks [] d = d
NoRepeat-top_up n picks (c ∷ cs) d = elim (Bool-cases (leb n (length picks))) [
  | inl e ↦ rw e d
  | inr e ↦ elim (Bool-cases (has_id c.id picks)) [
    | inl k ↦ rw e (rw k (NoRepeat-top_up n picks cs d))
    | inr k ↦ rw e (
        rw k (
          NoRepeat-top_up n (picks ++ c ∷ []) cs
            (NoRepeat-append picks c d (All-of_no_any (λ x. str_eq x.id c.id) picks k))))
  ]
]

pub length-pick_families :
    (n : ℕ) (picks cs : List Candidate) → length picks < n → length (pick_families n picks cs) ≤ n
unfolding pick_families
length-pick_families n picks [] h = omega arith
length-pick_families n picks (c ∷ cs) h = ground (
  arith,
  length-pick_families n picks cs,
  length-append picks (c ∷ []),
  length-pick_families n (picks ++ c ∷ []) cs,
)

pub length-top_up :
    (n : ℕ) (picks cs : List Candidate) → length picks ≤ n → length (top_up n picks cs) ≤ n
unfolding top_up
length-top_up n picks [] h = h
length-top_up n picks (c ∷ cs) h = ground (
  arith,
  length-top_up n picks cs,
  length-append picks (c ∷ []),
  length-top_up n (picks ++ c ∷ []) cs,
)

has_id-append :
    (id : String) (xs ys : List Candidate)
    → has_id id (xs ++ ys) ≡ (if has_id id xs then true else has_id id ys)
has_id-append id [] ys = refl
has_id-append id (x ∷ xs) ys = ground (arith, has_id-append id xs ys)

-- What is picked stays picked.
has_id-top_up :
    (id : String) (n : ℕ) (picks cs : List Candidate)
    → has_id id picks ≡ true
    → has_id id (top_up n picks cs) ≡ true
unfolding top_up
has_id-top_up id n picks [] h = h
has_id-top_up id n picks (c ∷ cs) h = ground (
  arith,
  has_id-top_up id n picks cs,
  has_id-append id picks (c ∷ []),
  has_id-top_up id n (picks ++ c ∷ []) cs,
)

pub has_id-top_up_short :
    (id : String) (n : ℕ) (picks cs : List Candidate)
    → has_id id cs ≡ true
    → length (top_up n picks cs) < n
    → has_id id (top_up n picks cs) ≡ true
unfolding top_up
has_id-top_up_short id n picks [] h k = cc
has_id-top_up_short id n picks (c ∷ cs) h k = elim (Bool-cases (leb n (length picks))) [
  | inl e ↦ ground arith
  | inr e ↦ elim (Bool-cases (has_id c.id picks)) [
    | inl t ↦ elim (Bool-cases (str_eq c.id id)) [
      | inl y ↦
          let here : has_id id picks ≡ true =
            subst (λ x. has_id x picks ≡ true) ((eq_iff c.id id).0 y) t in
          rw e (rw t (has_id-top_up id n picks cs here))
      | inr y ↦ ground (arith, has_id-top_up_short id n picks cs)
    ]
    | inr t ↦ ground (
      arith,
      has_id-append id picks (c ∷ []),
      has_id-top_up id n (picks ++ c ∷ []) cs,
      has_id-top_up_short id n (picks ++ c ∷ []) cs,
    )
  ]
]

pub any-composition_tickets :
    (id : String) (cs : List Candidate)
    → has_id id (filter (λ c. not (is_number 1 c.rating)) cs) ≡ true
    → any (λ t. str_eq t.candidate.id id) (composition_tickets cs) ≡ true
unfolding composition_tickets
any-composition_tickets id [] h = cc
any-composition_tickets id (c ∷ cs) h = elim (Bool-cases (is_number 1 c.rating)) [
  | inl e ↦ ground (arith, any-composition_tickets id cs)
  | inr e ↦ elim (Bool-cases (is_number 3 c.rating)) [
    | inl k ↦ ground (arith, any-composition_tickets id cs)
    | inr k ↦ ground (arith, any-composition_tickets id cs)
  ]
]

pub any-append :
    (test : Candidate → Bool) (xs ys : List Candidate)
    → any test (xs ++ ys) ≡ (if any test xs then true else any test ys)
any-append test [] ys = refl
any-append test (x ∷ xs) ys = ground (arith, any-append test xs ys)

pub any-split :
    (test part : Candidate → Bool) (xs : List Candidate)
    → any test xs ≡ true
    → any test (filter part xs ++ filter (λ x. not (part x)) xs) ≡ true
any-split test part [] h = cc
any-split test part (x ∷ xs) h = elim (Bool-cases (part x)) [
  | inl e ↦ rw e (
      ground (
        arith,
        any-split test part xs,
        any-append test (filter part xs) (filter (λ y. not (part y)) xs),
        any-append test (x ∷ filter part xs) (filter (λ y. not (part y)) xs),
      ))
  | inr e ↦ rw e (
      ground (
        arith,
        any-split test part xs,
        any-append test (filter part xs) (filter (λ y. not (part y)) xs),
        any-append test (filter part xs) (x ∷ filter (λ y. not (part y)) xs),
      ))
]
