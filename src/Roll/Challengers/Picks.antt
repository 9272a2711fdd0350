-- ===== src/Roll/Challengers/Picks.antt =====
-- What selectApprovedChallengers of lib/roll-selection.mjs deals for a tier.
use agent_bus.Shared.{
  All, Bool-cases, List, Option, [], inl, inr, none, some, ◌∷◌, All-append, Bool, String, not,
  str_eq, ℕ, ◌+◌, find, or_else,
}
use agent_bus.Roll.Ranks.{All-map, All-rank}
use agent_bus.Roll.{
  Candidate, Ticket, has_id, is_empty, is_niche, is_number, one_ticket, Runtime, ticket_id,
}
use agent_bus.Roll.Challengers.{
  challenger_tickets, drawn_tickets, first_seen, two_picks, open_pool, pick_round, pick_tiers,
  same_family, second_pick, tier_order, well_tiers, with_second,
}
use agent_bus.Roll.Challengers.{Request}

module _ {κ} (P : Candidate → Type κ) where
  All-challenger_tickets :
      (cs : List Candidate) → All P cs → All (λ t. P t.candidate) (challenger_tickets cs)
  unfolding challenger_tickets
  All-challenger_tickets [] h = tt
  All-challenger_tickets (c ∷ cs) h = elim (Bool-cases (is_number 1 c.rating)) [
    | inl e ↦ rw e (All-challenger_tickets cs h.1)
    | inr e ↦ elim (Bool-cases (is_niche c)) [
      | inl n ↦ rw e (rw n (All-challenger_tickets cs h.1))
      | inr n ↦ elim (Bool-cases (is_number 3 c.rating)) [
        | inl k ↦ rw e (rw n (rw k (h.0, (h.0, All-challenger_tickets cs h.1))))
        | inr k ↦ rw e (rw n (rw k (h.0, All-challenger_tickets cs h.1)))
      ]
    ]
  ]

  All-drawn_tickets : (cs : List Candidate) → All P cs → All (λ t. P t.candidate) (drawn_tickets cs)
  unfolding drawn_tickets
  All-drawn_tickets cs h = elim (Bool-cases (is_empty (challenger_tickets cs))) [
    | inl e ↦ rw e (All-map (λ t. P t.candidate) one_ticket cs h)
    | inr e ↦ rw e (All-challenger_tickets cs h)
  ]

  All-first_seen :
      (seen : List Candidate) (ts : List Ticket)
      → All (λ t. P t.candidate) ts
      → All P (first_seen seen ts)
  unfolding first_seen
  All-first_seen seen [] h = tt
  All-first_seen seen (t ∷ ts) h = elim (Bool-cases (has_id t.candidate.id seen)) [
    | inl e ↦ rw e (All-first_seen seen ts h.1)
    | inr e ↦ rw e (h.0, All-first_seen (t.candidate ∷ seen) ts h.1)
  ]

  abbrev listed : Option Candidate → List Candidate
  listed none = []
  listed (some c) = c ∷ []

  All-find :
      (test : Candidate → Bool) (cs : List Candidate) → All P cs → All P (listed (find test cs))
  All-find test [] h = tt
  All-find test (c ∷ cs) h = elim (Bool-cases (test c)) [
    | inl e ↦ rw e (h.0, tt)
    | inr e ↦ rw e (All-find test cs h.1)
  ]

  All-or_else :
      (o p : Option Candidate) → All P (listed o) → All P (listed p) → All P (listed (or_else o p))
  All-or_else none p h k = k
  All-or_else (some c) p h k = h

  All-with_second :
      (first : Candidate) (o : Option Candidate)
      → P first
      → All P (listed o)
      → All P (with_second first o)
  All-with_second first none p h = (p, tt)
  All-with_second first (some c) p h = (p, (h.0, tt))

  pub All-two_picks : (cs : List Candidate) → All P cs → All P (two_picks cs)
  unfolding two_picks second_pick
  All-two_picks [] h = tt
  All-two_picks (c ∷ cs) h =
      let differs = λ (d : Candidate). not (same_family d c) in
      let another = λ (d : Candidate). not (str_eq d.id c.id) in
      All-with_second c (or_else (find differs (c ∷ cs)) (find another (c ∷ cs))) h.0 (
        All-or_else (find differs (c ∷ cs)) (find another (c ∷ cs)) (All-find differs (c ∷ cs) h)
          (All-find another (c ∷ cs) h))

  module _ (r : Runtime) (q : Request) (pool_of : String → List Candidate) where
    pub All-tier_order :
        (round : ℕ) (excluded : List Candidate) (index : ℕ) (tier : String)
        → All P (open_pool excluded (pool_of tier))
        → All P (tier_order r q pool_of round excluded index tier)
    unfolding tier_order
    All-tier_order round excluded index tier h = All-first_seen [] _ (
        All-rank r (ticket_id r) (drawn_tickets (open_pool excluded (pool_of tier))) _
          (λ t. P t.candidate) (All-drawn_tickets (open_pool excluded (pool_of tier)) h))

    All-pick_tiers :
        (round : ℕ) (excluded : List Candidate) (index : ℕ) (tiers : List String)
        → All (λ tier. All P (open_pool excluded (pool_of tier))) tiers
        → All P (pick_tiers r q pool_of round excluded index tiers)
    unfolding pick_tiers
    All-pick_tiers round excluded index [] h = tt
    All-pick_tiers round excluded index (tier ∷ tiers) h =
        All-append P (two_picks (tier_order r q pool_of round excluded index tier))
          (pick_tiers r q pool_of round excluded (index + 1) tiers)
          (All-two_picks _ (All-tier_order round excluded index tier h.0))
          (All-pick_tiers round excluded (index + 1) tiers h.1)

    -- A round deals from the open pools of the tiers.
    pub All-pick_round :
        (round : ℕ) (excluded : List Candidate)
        → All (λ tier. All P (open_pool excluded (pool_of tier))) well_tiers
        → All P (pick_round r q pool_of round excluded)
    unfolding pick_round
    All-pick_round round excluded h = All-pick_tiers round excluded 0 _ (
        All-rank r (λ tier. tier) well_tiers _ (λ tier. All P (open_pool excluded (pool_of tier)))
          h)
