-- ===== src/Queue/Selection.antt =====
-- Which event a poll gets (live/poll-lanes.mjs).
use mathlib.Core.List.{Memᴰ}
use mathlib.Core.Path.{subst}
use agent_bus.Shared.{
  All, Bool-cases, List, [], arith, false, inl, inr, true, ◌∷◌, ◌≡◌, All-Mem, All-filter,
  All-filter_test, All-map_pred, All-of_filter, Option, filter, not, some, ℕ, ltb, none, refl, sym,
  ◌<◌, ◌≢◌, ◌≤◌, ◌⊎◌,
}
use agent_bus.Queue.{
  Queued, goes_before, insert_entry, sort_entries, first_entry, is_allowed, is_leased,
  select_available, event_priority,
}
use agent_bus.Vocabulary.{EventType}

goes_before_refl : (a : Queued) → goes_before a a ≡ true
unfolding goes_before
goes_before_refl a = ground arith

goes_before_total : (a b : Queued) → goes_before a b ≡ false → goes_before b a ≡ true
unfolding goes_before
goes_before_total a b h = ground arith

goes_before_trans :
    (a b c : Queued) → goes_before a b ≡ true → goes_before b c ≡ true → goes_before a c ≡ true
unfolding goes_before
goes_before_trans a b c h k = ground arith

abbrev Before : Queued → Queued → Type 0
Before a b = goes_before a b ≡ true

All-Before : (a b : Queued) (xs : List Queued) → Before a b → All (Before b) xs → All (Before a) xs
All-Before a b [] h k = tt
All-Before a b (x ∷ xs) h k = (goes_before_trans a b x h k.0, All-Before a b xs h k.1)

-- The head of a list goes before all that the list has.
abbrev HeadFirst : List Queued → Type 0
HeadFirst [] = Unit
HeadFirst (x ∷ xs) = All (Before x) xs

All-insert_entry {κ} :
    (P : Queued → Type κ) (q : Queued) (xs : List Queued)
    → P q
    → All P xs
    → All P (insert_entry q xs)
unfolding insert_entry
All-insert_entry P q [] p h = (p, tt)
All-insert_entry P q (x ∷ xs) p h = elim (Bool-cases (goes_before q x)) [
  | inl e ↦ rw e (p, h)
  | inr e ↦ rw e (h.0, All-insert_entry P q xs p h.1)
]

insert_entry-HeadFirst :
    (q : Queued) (xs : List Queued) → HeadFirst xs → HeadFirst (insert_entry q xs)
unfolding insert_entry
insert_entry-HeadFirst q [] h = tt
insert_entry-HeadFirst q (x ∷ xs) h = elim (Bool-cases (goes_before q x)) [
  | inl e ↦ rw e (e, All-Before q x xs e h)
  | inr e ↦ rw e (All-insert_entry (Before x) q xs (goes_before_total q x e) h)
]

sort_entries-HeadFirst : (xs : List Queued) → HeadFirst (sort_entries xs)
unfolding sort_entries
sort_entries-HeadFirst [] = tt
sort_entries-HeadFirst (x ∷ xs) =
    insert_entry-HeadFirst x (sort_entries xs) (sort_entries-HeadFirst xs)

-- What holds of all of a sorted list holds of all of the list.
All-of_insert_entry {κ} :
    (P : Queued → Type κ) (q : Queued) (xs : List Queued)
    → All P (insert_entry q xs)
    → P q × All P xs
unfolding insert_entry
All-of_insert_entry P q [] h = (h.0, tt)
All-of_insert_entry P q (x ∷ xs) h = elim (Bool-cases (goes_before q x)) [
  | inl e ↦ let k = rw e at h in (k.0, k.1)
  | inr e ↦ let k = rw e at h in let (p, rest) = All-of_insert_entry P q xs k.1 in (p, (k.0, rest))
]

All-of_sort_entries {κ} :
    (P : Queued → Type κ) (xs : List Queued) → All P (sort_entries xs) → All P xs
unfolding sort_entries
All-of_sort_entries P [] h = tt
All-of_sort_entries P (x ∷ xs) h =
    let (p, rest) = All-of_insert_entry P x (sort_entries xs) h in
    (p, All-of_sort_entries P xs rest)

All-sort_entries {κ} : (P : Queued → Type κ) (xs : List Queued) → All P xs → All P (sort_entries xs)
unfolding sort_entries
All-sort_entries P [] h = tt
All-sort_entries P (x ∷ xs) h =
    All-insert_entry P x (sort_entries xs) h.0 (All-sort_entries P xs h.1)

-- The entries that no agent has leased, and that the poll asks for.
abbrev candidates : ℕ → Option (List EventType) → List Queued → List Queued
candidates now types entries =
    filter (is_allowed types) (filter (λ q. not (is_leased now q)) entries)

of_first_entry {κ} :
    (P : Queued → Type κ) (xs : List Queued) (q : Queued) → first_entry xs ≡ some q → All P xs → P q
of_first_entry P [] q e h = cc
of_first_entry P (x ∷ xs) q e h = subst P (cc e) h.0

first-Before :
    (xs : List Queued) (q : Queued) → first_entry xs ≡ some q → HeadFirst xs → All (Before q) xs
first-Before [] q e h = cc
first-Before (x ∷ xs) q e h =
    let same : x ≡ q = cc e in
    (subst (λ y. Before y x) same (goes_before_refl x), subst (λ y. All (Before y) xs) same h)

free_of_not : (now : ℕ) (q : Queued) → not (is_leased now q) ≡ true → is_leased now q ≡ false
free_of_not now q h = ground arith

not_of_free : (now : ℕ) (q : Queued) → is_leased now q ≡ false → not (is_leased now q) ≡ true
not_of_free now q h = rw h

-- The first of two is more urgent, or as urgent and no younger.
abbrev pub NoLater : Queued → Queued → Type 0
NoLater q x =
    (event_priority q.event.type < event_priority x.event.type)
    ⊎ ((event_priority q.event.type ≡ event_priority x.event.type) × (q.seq ≤ x.seq))

goes_before-NoLater : (q x : Queued) → goes_before q x ≡ true → NoLater q x
unfolding goes_before
goes_before-NoLater q x h =
    elim (Bool-cases (ltb (event_priority q.event.type) (event_priority x.event.type))) [
      | inl e ↦ inl (ground arith)
      | inr e ↦ inr (ground arith, ground arith)
    ]

-- The entry that a poll gets is one of the queue, is leased to nobody at this time and has a type
-- that the poll asks for; and of all such entries it is the most urgent (eventPriority is lowest), or it
-- is as urgent as any other and no younger.
pub select_available-first :
    (now : ℕ) (types : Option (List EventType)) (entries : List Queued) (q : Queued)
    → select_available now types entries ≡ some q
    → Memᴰ q entries
      × (is_leased now q ≡ false)
      × (is_allowed types q ≡ true)
      × All (λ x. is_leased now x ≡ false → is_allowed types x ≡ true → NoLater q x) entries
unfolding select_available
select_available-first now types entries q e =
    let kept = filter (λ q. not (is_leased now q)) entries in
    let sorted = sort_entries (candidates now types entries) in
    let pick = λ (P : Queued → Type 0) (h : All P (candidates now types entries)).
      of_first_entry P sorted q e (All-sort_entries P (candidates now types entries) h) in
    let order =
      All-of_filter (λ x. is_allowed types x ≡ true → Before q x) (λ q. not (is_leased now q))
        entries
        (All-of_filter (Before q) (is_allowed types) kept (
          All-of_sort_entries (Before q) (candidates now types entries)
            (first-Before sorted q e (sort_entries-HeadFirst (candidates now types entries))))) in
    (
      pick (λ x. Memᴰ x entries)
          (All-filter (λ x. Memᴰ x entries) (is_allowed types) kept
            (All-filter (λ x. Memᴰ x entries) (λ q. not (is_leased now q)) entries
              (All-Mem entries))),
      pick (λ x. is_leased now x ≡ false)
          (All-filter (λ x. is_leased now x ≡ false) (is_allowed types) kept
            (All-map_pred (λ x. not (is_leased now x) ≡ true) (λ x. is_leased now x ≡ false) kept
              (free_of_not now) (All-filter_test (λ q. not (is_leased now q)) entries))),
      pick (λ x. is_allowed types x ≡ true) (All-filter_test (is_allowed types) kept),
      All-map_pred (λ x. not (is_leased now x) ≡ true → is_allowed types x ≡ true → Before q x)
          (λ x. is_leased now x ≡ false → is_allowed types x ≡ true → NoLater q x) entries
          (λ x f h k. goes_before-NoLater q x (f (not_of_free now x h) k)) order,
    )

insert_entry-some : (q : Queued) (xs : List Queued) → first_entry (insert_entry q xs) ≢ none
unfolding insert_entry
insert_entry-some q [] h = cc
insert_entry-some q (x ∷ xs) h = ground arith

none-sort_entries : (xs : List Queued) → first_entry (sort_entries xs) ≡ none → xs ≡ []
unfolding sort_entries
none-sort_entries [] h = refl
none-sort_entries (x ∷ xs) h = absurd (insert_entry-some x (sort_entries xs) h)

either_of :
    (now : ℕ) (types : Option (List EventType)) (x : Queued)
    → (not (is_leased now x) ≡ true → is_allowed types x ≡ true → ⊥)
    → (is_leased now x ≡ true) ⊎ (is_allowed types x ≡ false)
either_of now types x f = elim (Bool-cases (is_leased now x)) [
  | inl e ↦ inl e
  | inr e ↦ elim (Bool-cases (is_allowed types x)) [
    | inl a ↦ absurd (f (not_of_free now x e) a)
    | inr a ↦ inr a
  ]
]

-- A poll gets nothing only if every entry of the queue is leased or has a type that the poll does not
-- ask for.
pub select_available-none :
    (now : ℕ) (types : Option (List EventType)) (entries : List Queued)
    → select_available now types entries ≡ none
    → All (λ x. (is_leased now x ≡ true) ⊎ (is_allowed types x ≡ false)) entries
unfolding select_available
select_available-none now types entries h =
    let empty : candidates now types entries ≡ [] =
      none-sort_entries (candidates now types entries) h in
    All-map_pred (λ x. not (is_leased now x) ≡ true → is_allowed types x ≡ true → ⊥)
      (λ x. (is_leased now x ≡ true) ⊎ (is_allowed types x ≡ false)) entries
      (λ x f. either_of now types x f)
      (All-of_filter (λ x. is_allowed types x ≡ true → ⊥) (λ q. not (is_leased now q)) entries
        (All-of_filter (λ x. ⊥) (is_allowed types) (filter (λ q. not (is_leased now q)) entries)
          (subst (λ xs. All (λ x. ⊥) xs) (sym empty) tt)))
