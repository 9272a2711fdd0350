-- ===== src/Roll/Challengers/Tiers.antt =====
-- Every tier has a challenger in the roll (lib/roll-selection.mjs, selectApprovedChallengers).
use agent_bus.Shared.{
  All, Bool, Bool-cases, List, Option, String, [], any, arith, false, filter, inl, inr, leb, length,
  length-append, none, not, refl, some, str_eq, true, truthy, value_or, ℕ, ◌*◌, ◌+◌, ◌==◌, ◌∙◌, ◌∷◌,
  ◌≡◌, ◌≤◌, eq_iff, if◌then◌else◌,
}
use agent_bus.Roll.{Candidate, Runtime, Ticket, has_id, is_empty, is_text, narrow, ticket_id}
use agent_bus.Roll.Challengers.{
  approved_of, challenger_tickets, drawn_tickets, first_seen, mode_allows, mode_gate, open_pool,
  pick_tiers, rating_gate, second_pick, tier_order, tier_pool, two_picks, wanted, with_second,
}
use agent_bus.Roll.Ranks.{length-rank}
use agent_bus.Roll.Challengers.{Request}
use agent_bus.Roll.Compositions.Eligible.{All-narrow}
use agent_bus.Roll.Challengers.Picks.{All-tier_order}
use agent_bus.Roll.Compositions.Spread.{any-append}

is_empty-narrow :
    (test : Candidate → Bool) (pool : List Candidate) → is_empty (narrow test pool) ≡ is_empty pool
is_empty-narrow test [] = refl
is_empty-narrow test (c ∷ cs) = elim (Bool-cases (is_empty (filter test (c ∷ cs)))) [
  | inl e ↦ rw e refl
  | inr e ↦ rw e e
]

-- The gates leave no tier empty.
pub is_empty-tier_pool :
    (q : Request) (concepts : List Candidate) (tier : String)
    → is_empty (tier_pool q concepts tier) ≡ is_empty (approved_of concepts tier)
unfolding tier_pool mode_gate rating_gate
is_empty-tier_pool q concepts tier =
    let pool = approved_of concepts tier in
    is_empty-narrow (wanted q.scope) (mode_gate q.mode (rating_gate q.min_rating pool))
    ∙ in_mode (rating_gate q.min_rating pool)
    ∙ rated pool
  where
    in_mode : (pool : List Candidate) → is_empty (mode_gate q.mode pool) ≡ is_empty pool
    in_mode pool = elim (Bool-cases (truthy q.mode)) [
      | inl e ↦ rw e (is_empty-narrow (mode_allows (value_or q.mode "")) pool)
      | inr e ↦ rw e refl
    ]

    rated : (pool : List Candidate) → is_empty (rating_gate q.min_rating pool) ≡ is_empty pool
    rated pool = elim (Bool-cases (q.min_rating == 0)) [
      | inl e ↦ rw e refl
      | inr e ↦ rw e (is_empty-narrow (λ c. leb q.min_rating (value_or c.rating 0)) pool)
    ]

is_empty-length {ℓ μ} :
    {A : Type ℓ} {B : Type μ} (xs : List A) (ys : List B)
    → length xs ≡ length ys
    → is_empty xs ≡ is_empty ys
is_empty-length [] [] h = refl
is_empty-length [] (y ∷ ys) h = absurd (omega arith)
is_empty-length (x ∷ xs) [] h = absurd (omega arith)
is_empty-length (x ∷ xs) (y ∷ ys) h = refl

is_empty-drawn_tickets : (pool : List Candidate) → is_empty (drawn_tickets pool) ≡ is_empty pool
unfolding drawn_tickets
is_empty-drawn_tickets [] = refl
is_empty-drawn_tickets (c ∷ cs) = elim (Bool-cases (is_empty (challenger_tickets (c ∷ cs)))) [
  | inl e ↦ rw e refl
  | inr e ↦ rw e e
]

is_empty-first_seen : (ts : List Ticket) → is_empty (first_seen [] ts) ≡ is_empty ts
unfolding first_seen
is_empty-first_seen [] = refl
is_empty-first_seen (t ∷ ts) = refl

any-two_picks :
    (test : Candidate → Bool) (order : List Candidate)
    → is_empty order ≡ false
    → All (λ c. test c ≡ true) order
    → any test (two_picks order) ≡ true
unfolding two_picks
any-two_picks test [] e h = cc
any-two_picks test (c ∷ cs) e h = leads c (second_pick c (c ∷ cs)) h.0
  where
    leads :
        (c : Candidate) (o : Option Candidate) → test c ≡ true → any test (with_second c o) ≡ true
    leads c none h = rw h refl
    leads c (some d) h = rw h refl

length-two_picks : (order : List Candidate) → length (two_picks order) ≤ 2
unfolding two_picks
length-two_picks [] = omega arith
length-two_picks (c ∷ cs) = at_most (second_pick c (c ∷ cs))
  where
    at_most : (o : Option Candidate) → length (with_second c o) ≤ 2
    at_most none = omega arith
    at_most (some d) = omega arith

either_true : (a b : Bool) → b ≡ true → (if a then true else b) ≡ true
either_true true b h = refl
either_true false b h = h

module _ (r : Runtime) (q : Request) (pool_of : String → List Candidate) where
  pub is_empty-tier_order :
      (round : ℕ) (excluded : List Candidate) (index : ℕ) (tier : String)
      → is_empty (tier_order r q pool_of round excluded index tier) ≡ is_empty (pool_of tier)
  unfolding tier_order open_pool
  is_empty-tier_order round excluded index tier =
      let pool = open_pool excluded (pool_of tier) in
      is_empty-first_seen _
      ∙ is_empty-length _ (drawn_tickets pool) (length-rank r (ticket_id r) (drawn_tickets pool) _)
      ∙ is_empty-drawn_tickets pool
      ∙ is_empty-narrow (λ c. not (has_id c.id excluded)) (pool_of tier)

  pub any-pick_tiers :
      (round : ℕ) (excluded : List Candidate) (index : ℕ) (tiers : List String) (tier : String)
      → is_empty (pool_of tier) ≡ false
      → All (λ c. is_text tier c.well_tier ≡ true) (pool_of tier)
      → any (λ t. str_eq t tier) tiers ≡ true
      → any (λ c. is_text tier c.well_tier) (pick_tiers r q pool_of round excluded index tiers)
        ≡ true
  unfolding pick_tiers open_pool
  any-pick_tiers round excluded index [] tier e h k = cc
  any-pick_tiers round excluded index (t ∷ ts) tier e h k =
      let order = tier_order r q pool_of round excluded index t in
      let rest = pick_tiers r q pool_of round excluded (index + 1) ts in
      let test = λ (c : Candidate). is_text tier c.well_tier in
      any-append test (two_picks order) rest ∙ elim (Bool-cases (str_eq t tier)) [
        | inl y ↦
            let same = (eq_iff t tier).0 y in
            let filled : is_empty (pool_of t) ≡ false = rw same e in
            let kept : All (λ c. test c ≡ true) (pool_of t) = rw same h in
            rw
              (any-two_picks test order (is_empty-tier_order round excluded index t ∙ filled) (
                All-tier_order (λ c. test c ≡ true) r q pool_of round excluded index t
                  (All-narrow (λ c. test c ≡ true) (λ c. not (has_id c.id excluded)) (pool_of t)
                    kept)))
              refl
        | inr y ↦
            let later : any (λ x. str_eq x tier) ts ≡ true = ground (arith, y, k) in
            either_true (any test (two_picks order)) (any test rest)
              (any-pick_tiers round excluded (index + 1) ts tier e h later)
      ]

  pub length-pick_tiers :
      (round : ℕ) (excluded : List Candidate) (index : ℕ) (tiers : List String)
      → length (pick_tiers r q pool_of round excluded index tiers) ≤ 2 * length tiers
  unfolding pick_tiers
  length-pick_tiers round excluded index [] = omega arith
  length-pick_tiers round excluded index (t ∷ ts) =
      let order = tier_order r q pool_of round excluded index t in
      let rest = pick_tiers r q pool_of round excluded (index + 1) ts in
      omega (
        arith,
        length-append (two_picks order) rest,
        length-two_picks order,
        length-pick_tiers round excluded (index + 1) ts,
      )
