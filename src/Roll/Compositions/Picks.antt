-- ===== src/Roll/Compositions/Picks.antt =====
-- The compositions that a round deals are of its pool, and in order (lib/roll-selection.mjs).
use agent_bus.Shared.{
  All, All-append, All-filter, Bool-cases, List, Option, String, [], filter, inl, inr, leb, length,
  min, not, suc, truthy, value_or, zero, ℕ, ◌++◌, ◌+◌, ◌∷◌,
}
use agent_bus.Roll.Ranks.{All-map, All-rank}
use agent_bus.Roll.{Candidate, Runtime, has_id, is_empty, is_number, is_text, one_ticket, ticket_id}
use agent_bus.Roll.Compositions.{
  Request, base_of, by_grain, composition_tickets, draw, draw_rounds, draw_tickets, family,
  has_family, ordered_of, pick_families, picks_of, staging_input, top_up, unseen,
}

module _ {κ} (P : Candidate → Type κ) where
  All-composition_tickets :
      (cs : List Candidate) → All P cs → All (λ t. P t.candidate) (composition_tickets cs)
  unfolding composition_tickets
  All-composition_tickets [] h = tt
  All-composition_tickets (c ∷ cs) h = elim (Bool-cases (is_number 1 c.rating)) [
    | inl e ↦ rw e (All-composition_tickets cs h.1)
    | inr e ↦ elim (Bool-cases (is_number 3 c.rating)) [
      | inl k ↦ rw e (rw k (h.0, (h.0, All-composition_tickets cs h.1)))
      | inr k ↦ rw e (rw k (h.0, All-composition_tickets cs h.1))
    ]
  ]

  All-draw_tickets : (cs : List Candidate) → All P cs → All (λ t. P t.candidate) (draw_tickets cs)
  unfolding draw_tickets
  All-draw_tickets cs h = elim (Bool-cases (is_empty (composition_tickets cs))) [
    | inl e ↦ rw e (All-map (λ t. P t.candidate) one_ticket cs h)
    | inr e ↦ rw e (All-composition_tickets cs h)
  ]

  All-by_grain :
      (grain : Option String) (cs : List Candidate) → All P cs → All P (by_grain grain cs)
  unfolding by_grain
  All-by_grain grain cs h = elim (Bool-cases (truthy grain)) [
    | inl e ↦ rw e (
        All-append P (filter (λ c. is_text (value_or grain "") c.grain) cs)
          (filter (λ c. not (is_text (value_or grain "") c.grain)) cs)
          (All-filter P (λ c. is_text (value_or grain "") c.grain) cs h)
          (All-filter P (λ c. not (is_text (value_or grain "") c.grain)) cs h))
    | inr e ↦ rw e h
  ]

  pub All-pick_families :
      (n : ℕ) (picks cs : List Candidate)
      → All P picks
      → All P cs
      → All P (pick_families n picks cs)
  unfolding pick_families
  All-pick_families n picks [] h k = h
  All-pick_families n picks (c ∷ cs) h k =
      let added = All-append P picks (c ∷ []) h (k.0, tt) in
      elim (Bool-cases (has_family (family c) picks)) [
        | inl e ↦ rw e (All-pick_families n picks cs h k.1)
        | inr e ↦ elim (Bool-cases (leb n (length (picks ++ c ∷ [])))) [
          | inl f ↦ rw e (rw f added)
          | inr f ↦ rw e (rw f (All-pick_families n (picks ++ c ∷ []) cs added k.1))
        ]
      ]

  pub All-top_up :
      (n : ℕ) (picks cs : List Candidate) → All P picks → All P cs → All P (top_up n picks cs)
  unfolding top_up
  All-top_up n picks [] h k = h
  All-top_up n picks (c ∷ cs) h k = elim (Bool-cases (leb n (length picks))) [
    | inl e ↦ rw e h
    | inr e ↦ elim (Bool-cases (has_id c.id picks)) [
      | inl f ↦ rw e (rw f (All-top_up n picks cs h k.1))
      | inr f ↦
          rw e
            (rw f (All-top_up n (picks ++ c ∷ []) cs (All-append P picks (c ∷ []) h (k.0, tt)) k.1))
    ]
  ]

  pub All-base_of :
      (n : ℕ) (prior pool : List Candidate) → All P pool → All P (base_of n prior pool)
  unfolding base_of
  All-base_of n prior pool h =
      elim (Bool-cases (leb (min n (length pool)) (length (unseen prior pool)))) [
        | inl e ↦ rw e (All-filter P (λ c. not (has_id c.id prior)) pool h)
        | inr e ↦ rw e h
      ]

  module _ (r : Runtime) (q : Request) where
    pub All-ordered_of :
        (round : ℕ) (base : List Candidate) → All P base → All P (ordered_of r q round base)
    unfolding ordered_of
    All-ordered_of round base h = All-by_grain q.grain _ (
        All-map P (λ t. t.candidate) _
          (All-rank r (ticket_id r) (draw_tickets base) (staging_input r q round)
            (λ t. P t.candidate) (All-draw_tickets base h)))

    -- A round deals nothing but what its base has.
    pub All-draw_base :
        (round : ℕ) (prior pool : List Candidate)
        → All P (base_of q.count prior pool)
        → All P (draw r q round prior pool)
    unfolding draw picks_of
    All-draw_base round prior pool h =
        let ordered = ordered_of r q round (base_of q.count prior pool) in
        let k = All-ordered_of round (base_of q.count prior pool) h in
        All-top_up q.count (pick_families q.count [] ordered) ordered
          (All-pick_families q.count [] ordered tt k) k

    pub All-draw_rounds :
        (left round : ℕ) (prior pool : List Candidate)
        → All P pool
        → All P (draw_rounds r q left round prior pool)
    unfolding draw_rounds
    All-draw_rounds zero round prior pool h =
        All-draw_base round prior pool (All-base_of q.count prior pool h)
    All-draw_rounds (suc left) round prior pool h =
        All-draw_rounds left (round + 1) (prior ++ draw r q round prior pool) pool h
