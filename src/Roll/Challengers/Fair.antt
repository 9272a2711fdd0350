-- ===== src/Roll/Challengers/Fair.antt =====
-- What a roll of challengers is sure to be (lib/roll-selection.mjs, selectApprovedChallengers).
use agent_bus.Roll.Challengers.{
  Request, Outcome, approved_of, dealt, every_tier_needs_approved, mode_allows, mode_gate,
  open_pool, pick_round, pick_rounds, rating_gate, select_challengers, tier_pool, wanted,
  well_tiers, pick_tiers,
}
use agent_bus.Shared.{
  All, All-filter_test, Bool-cases, List, String, [], any, arith, false, filter, inl, inr, leb,
  length, not, str_eq, suc, true, truthy, value_or, zero, ℕ, ◌++◌, ◌+◌, ◌==◌, ◌∙◌, ◌≡◌, ◌≤◌,
  All-Mem, All-filter, All-map_pred, refl,
}
use agent_bus.Roll.Compositions.Eligible.{All-narrow, All-when}
use agent_bus.Roll.{Candidate, Runtime, has_id, is_approved, is_empty, is_text}
use mathlib.Core.List.{Memᴰ}
use agent_bus.Roll.Challengers.Tiers.{any-pick_tiers, is_empty-tier_pool, length-pick_tiers}
use agent_bus.Roll.Ranks.{any-rank, length-rank, All-of_no_any}
use agent_bus.Roll.Challengers.Picks.{All-pick_round}
use agent_bus.Roll.Compositions.Rounds.{All-unseen}

-- The roll is refused when a tier has no approved concept; else it deals approved concepts of the
-- catalog, at least one of each tier and at most six.
abbrev pub IsFair : List Candidate → Outcome → Type 0
IsFair concepts every_tier_needs_approved =
    any (λ tier. is_empty (approved_of concepts tier)) well_tiers ≡ true
IsFair concepts (dealt approved picks) =
    All (λ tier. any (λ c. is_text tier c.well_tier) picks ≡ true) well_tiers
    × All (λ c. Memᴰ c concepts × (is_approved c ≡ true)) picks
    × (length picks ≤ 6)

-- A gate of the pool that keeps what every candidate has.
All-tier_pool {κ} :
    (P : Candidate → Type κ) (q : Request) (concepts : List Candidate) (tier : String)
    → All P (approved_of concepts tier)
    → All P (tier_pool q concepts tier)
unfolding tier_pool mode_gate rating_gate
All-tier_pool P q concepts tier h =
    let pool = approved_of concepts tier in
    All-narrow P (wanted q.scope) _ (in_mode _ (rated pool h))
  where
    rated : (pool : List Candidate) → All P pool → All P (rating_gate q.min_rating pool)
    rated pool k = elim (Bool-cases (q.min_rating == 0)) [
      | inl e ↦ rw e k
      | inr e ↦ rw e (All-narrow P (λ c. leb q.min_rating (value_or c.rating 0)) pool k)
    ]

    in_mode : (pool : List Candidate) → All P pool → All P (mode_gate q.mode pool)
    in_mode pool k = elim (Bool-cases (truthy q.mode)) [
      | inl e ↦ rw e (All-narrow P (mode_allows (value_or q.mode "")) pool k)
      | inr e ↦ rw e k
    ]

All-approved_of :
    (concepts : List Candidate) (tier : String)
    → All (λ c. Memᴰ c concepts × (is_approved c ≡ true)) (approved_of concepts tier)
unfolding approved_of
All-approved_of concepts tier =
    let known = λ (c : Candidate). Memᴰ c concepts × (true ≡ true → is_approved c ≡ true) in
    let stated = λ (c : Candidate). Memᴰ c concepts × (is_approved c ≡ true) in
    All-filter stated (λ c. is_text tier c.well_tier) (filter is_approved concepts)
      (All-map_pred known stated (filter is_approved concepts) (λ c h. (h.0, h.1 refl))
        (All-when (λ c. Memᴰ c concepts) true is_approved concepts (All-Mem concepts)))

All-in_tier :
    (concepts : List Candidate) (tier : String)
    → All (λ c. is_text tier c.well_tier ≡ true) (approved_of concepts tier)
unfolding approved_of
All-in_tier concepts tier =
    All-filter_test (λ c. is_text tier c.well_tier) (filter is_approved concepts)

All-open_pool {κ} :
    (P : Candidate → Type κ) (excluded pool : List Candidate)
    → All P pool
    → All P (open_pool excluded pool)
unfolding open_pool
All-open_pool P excluded pool h = All-narrow P (λ c. not (has_id c.id excluded)) pool h

module _ (r : Runtime) (q : Request) (pool_of : String → List Candidate) where
  pub any-pick_round :
      (round : ℕ) (excluded : List Candidate) (tier : String)
      → is_empty (pool_of tier) ≡ false
      → All (λ c. is_text tier c.well_tier ≡ true) (pool_of tier)
      → any (λ t. str_eq t tier) well_tiers ≡ true
      → any (λ c. is_text tier c.well_tier) (pick_round r q pool_of round excluded) ≡ true
  unfolding pick_round
  any-pick_round round excluded tier e h k =
      any-pick_tiers r q pool_of round excluded 0 _ tier e h
        (any-rank r (λ t. t) well_tiers _ (λ t. str_eq t tier) ∙ k)

  length-pick_round :
      (round : ℕ) (excluded : List Candidate) → length (pick_round r q pool_of round excluded) ≤ 6
  unfolding pick_round
  length-pick_round round excluded = at_most_six _ (length-rank r (λ tier. tier) well_tiers _)
    where
      at_most_six :
          (tiers : List String)
          → length tiers ≡ 3
          → length (pick_tiers r q pool_of round excluded 0 tiers) ≤ 6
      at_most_six tiers h = omega (arith, length-pick_tiers r q pool_of round excluded 0 tiers)

  -- The last round of a chain has what every round has.
  of_last_round {κ} :
      (P : List Candidate → Type κ)
      → ((round : ℕ) (excluded : List Candidate) → P (pick_round r q pool_of round excluded))
      → (left round : ℕ) (excluded : List Candidate)
      → P (pick_rounds r q pool_of left round excluded)
  unfolding pick_rounds
  of_last_round P h zero round excluded = h round excluded
  of_last_round P h (suc left) round excluded =
      of_last_round P h left (round + 1) (excluded ++ pick_round r q pool_of round excluded)

module _ (r : Runtime) (q : Request) (concepts : List Candidate) where
  in_round :
      (tier : String)
      → is_empty (approved_of concepts tier) ≡ false
      → any (λ t. str_eq t tier) well_tiers ≡ true
      → (round : ℕ) (excluded : List Candidate)
      → any (λ c. is_text tier c.well_tier) (pick_round r q (tier_pool q concepts) round excluded)
        ≡ true
  in_round tier e k round excluded =
      any-pick_round r q (tier_pool q concepts) round excluded tier
        (is_empty-tier_pool q concepts tier ∙ e)
        (All-tier_pool (λ c. is_text tier c.well_tier ≡ true) q concepts tier
          (All-in_tier concepts tier))
        k

  pick_round-IsFair :
      All (λ tier. is_empty (approved_of concepts tier) ≡ false) well_tiers
      → (round : ℕ) (excluded : List Candidate)
      → IsFair concepts (
          dealt
            (filter is_approved concepts)
            (pick_round r q (tier_pool q concepts) round excluded))
  pick_round-IsFair h round excluded =
      let stated = λ (c : Candidate). Memᴰ c concepts × (is_approved c ≡ true) in
      let open_tier : (tier : String)
          → All stated (open_pool excluded (tier_pool q concepts tier)) =
        λ tier.
          All-open_pool stated excluded _
            (All-tier_pool stated q concepts tier (All-approved_of concepts tier)) in
      (
        (
          in_round "graphic" h.0 refl round excluded,
          (
            in_round "interaction" h.1.0 refl round excluded,
            (in_round "atmosphere" h.1.1.0 refl round excluded, tt),
          ),
        ),
        All-pick_round stated r q (tier_pool q concepts) round excluded
            (open_tier "graphic", (open_tier "interaction", (open_tier "atmosphere", tt))),
        length-pick_round r q (tier_pool q concepts) round excluded,
      )

-- A roll of challengers is refused only if a tier has no approved concept. Else, in every round of
-- a re-roll, it deals approved concepts of the catalog, one of each tier at least and six at most.
pub select_challengers-IsFair :
    (r : Runtime) (q : Request) (concepts : List Candidate)
    → IsFair concepts (select_challengers r q concepts)
unfolding select_challengers
select_challengers-IsFair r q concepts =
    let lacks = λ (tier : String). is_empty (approved_of concepts tier) in
    elim (Bool-cases (any lacks well_tiers)) [
      | inl e ↦ rw e e
      | inr e ↦ rw e (
          of_last_round r q (tier_pool q concepts)
            (λ picks. IsFair concepts (dealt (filter is_approved concepts) picks))
            (pick_round-IsFair r q concepts (All-of_no_any lacks well_tiers e)) q.reroll 0 [])
    ]

-- A round of a re-roll deals nothing of the rounds before it while every tier has a concept that
-- they did not deal.
pub pick_round-fresh :
    (r : Runtime) (q : Request) (pool_of : String → List Candidate) (round : ℕ)
    (excluded : List Candidate)
    → All
        (λ tier. is_empty (filter (λ c. not (has_id c.id excluded)) (pool_of tier)) ≡ false)
        well_tiers
    → All (λ c. has_id c.id excluded ≡ false) (pick_round r q pool_of round excluded)
unfolding open_pool
pick_round-fresh r q pool_of round excluded h =
    All-pick_round (λ c. has_id c.id excluded ≡ false) r q pool_of round excluded
      (All-map_pred
        (λ tier. is_empty (filter (λ c. not (has_id c.id excluded)) (pool_of tier)) ≡ false)
        (λ tier. All (λ c. has_id c.id excluded ≡ false) (open_pool excluded (pool_of tier)))
        well_tiers (λ tier e. rw e (All-unseen excluded (pool_of tier))) h)
