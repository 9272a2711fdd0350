-- ===== src/Roll/Challengers.antt =====
-- lib/roll-selection.mjs, selectApprovedChallengers.
pub mod Fair
pub mod Picks
pub mod Tiers
use Prim.Native.String.{◌++◌ as join}
use agent_bus.Shared.{
  Bool, List, Option, String, [], any, false, filter, if◌then◌else◌, leb, map, none, not, some,
  str_eq, suc, true, truthy, value_or, zero, ℕ, ◌++◌, ◌+◌, ◌==◌, ◌∷◌, find, or_else,
}
use agent_bus.Roll.{
  Candidate, Runtime, Ticket, has_id, is_approved, is_empty, is_niche, is_number, is_text, narrow,
  one_ticket, rank, ticket_id, tickets_of,
}
use agent_bus.Vocabulary.{has_text}

abbrev pub well_tiers : List String
well_tiers = "graphic" ∷ "interaction" ∷ "atmosphere" ∷ []

-- The options; the source's defaults are reroll 0 and no minRating.
pub record Request : Type 0 where
  pub scope : String
  pub key : String
  pub reroll : ℕ
  pub min_rating : ℕ
  pub mode : Option String

pub data Outcome : Type 0 where
  every_tier_needs_approved : Outcome
  dealt : List Candidate → List Candidate → Outcome

-- challengerTickets
unfoldable pub challenger_tickets : List Candidate → List Ticket
challenger_tickets [] = []
challenger_tickets (c ∷ cs) =
    let rest = challenger_tickets cs in
    if is_number 1 c.rating then rest else if is_niche c then rest else tickets_of c ++ rest

unfoldable pub drawn_tickets : List Candidate → List Ticket
unfolding challenger_tickets
drawn_tickets pool =
    if is_empty (challenger_tickets pool) then map one_ticket pool else challenger_tickets pool

-- modeAllows
abbrev pub mode_allows : String → Candidate → Bool
mode_allows mode c = elim c.allowed_modes [
  | none ↦ true
  | some [] ↦ true
  | some (m ∷ ms) ↦ has_text (m ∷ ms) mode
]

-- The strengths that a scope draws.
abbrev pub wanted : String → Candidate → Bool
wanted scope c =
    if is_text "dual" c.strength
    then true
    else is_text (if str_eq scope "direction" then "world" else "composition") c.strength

-- approvedByTier, before the gates.
unfoldable pub approved_of : List Candidate → String → List Candidate
approved_of concepts tier = filter (λ c. is_text tier c.well_tier) (filter is_approved concepts)

unfoldable pub rating_gate : ℕ → List Candidate → List Candidate
rating_gate least pool =
    if least == 0 then pool else narrow (λ c. leb least (value_or c.rating 0)) pool

unfoldable pub mode_gate : Option String → List Candidate → List Candidate
mode_gate mode pool = if truthy mode then narrow (mode_allows (value_or mode "")) pool else pool

-- approvedByTier, behind the gates.
unfoldable pub tier_pool : Request → List Candidate → String → List Candidate
unfolding approved_of rating_gate mode_gate
tier_pool q concepts tier =
    narrow (wanted q.scope)
      (mode_gate q.mode (rating_gate q.min_rating (approved_of concepts tier)))

-- The pool of a tier without what earlier rounds dealt, or all of it.
unfoldable pub open_pool : List Candidate → List Candidate → List Candidate
open_pool excluded pool = narrow (λ c. not (has_id c.id excluded)) pool

-- `order`: the concepts of the ranked tickets, each once; `seen` is what is listed already.
unfoldable pub first_seen : List Candidate → List Ticket → List Candidate
first_seen seen [] = []
first_seen seen (t ∷ ts) =
    let rest = first_seen seen ts in
    let later = first_seen (t.candidate ∷ seen) ts in
    if has_id t.candidate.id seen then rest else t.candidate ∷ later

abbrev pub same_family : Candidate → Candidate → Bool
same_family c d = elim c.family_id [
  | none ↦ elim d.family_id [ none ↦ true | some g ↦ false ]
  | some f ↦ is_text f d.family_id
]

-- `second`
unfoldable pub second_pick : Candidate → List Candidate → Option Candidate
second_pick first order =
    or_else (find (λ c. not (same_family c first)) order)
      (find (λ c. not (str_eq c.id first.id)) order)

abbrev pub with_second : Candidate → Option Candidate → List Candidate
with_second first (some second) = first ∷ second ∷ []
with_second first none = first ∷ []

-- What a tier deals. The pool of a tier is not empty, so neither is the order of its tickets.
unfoldable pub two_picks : List Candidate → List Candidate
unfolding second_pick
two_picks [] = []
two_picks (first ∷ rest) = with_second first (second_pick first (first ∷ rest))

module _ (r : Runtime) (q : Request) (pool_of : String → List Candidate) where
  unfoldable pub salt : ℕ → String
  salt round = if round == 0 then "" else join ":reroll-" (r.print_number round)

  -- The order of the tickets of a tier, each concept once.
  unfoldable pub tier_order : ℕ → List Candidate → ℕ → String → List Candidate
  unfolding first_seen drawn_tickets open_pool salt
  tier_order round excluded index tier = first_seen [] (
      rank r (ticket_id r) (drawn_tickets (open_pool excluded (pool_of tier))) (
        join q.scope
          (join ":" (join q.key (join ":challenger-" (join (r.print_number index) (salt round)))))))

  -- The loop over the order of the tiers.
  unfoldable pub pick_tiers : ℕ → List Candidate → ℕ → List String → List Candidate
  unfolding tier_order two_picks
  pick_tiers round excluded index [] = []
  pick_tiers round excluded index (tier ∷ tiers) =
      two_picks (tier_order round excluded index tier)
      ++ pick_tiers round excluded (index + 1) tiers

  -- pickRound
  unfoldable pub pick_round : ℕ → List Candidate → List Candidate
  unfolding pick_tiers salt
  pick_round round excluded = pick_tiers round excluded 0 (
      rank r (λ tier. tier) well_tiers
        (join q.scope (join ":" (join q.key (join ":tiers" (salt round))))))

  -- The rounds from `round` on, `left` of them behind it.
  unfoldable pub pick_rounds : ℕ → ℕ → List Candidate → List Candidate
  unfolding pick_round
  pick_rounds zero round excluded = pick_round round excluded
  pick_rounds (suc left) round excluded =
      pick_rounds left (round + 1) (excluded ++ pick_round round excluded)

-- selectApprovedChallengers
unfoldable pub select_challengers : Runtime → Request → List Candidate → Outcome
unfolding pick_rounds tier_pool approved_of
select_challengers r q concepts =
    if any (λ tier. is_empty (approved_of concepts tier)) well_tiers
    then every_tier_needs_approved
    else dealt (filter is_approved concepts) (pick_rounds r q (tier_pool q concepts) q.reroll 0 [])
