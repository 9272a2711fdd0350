-- ===== src/Roll/Compositions.antt =====
-- lib/roll-selection.mjs, selectApprovedCompositions.
pub mod Picks
pub mod Rounds
pub mod Spread
pub mod Eligible
use Prim.Native.String.{◌++◌ as join}
use agent_bus.Shared.{
  Bool, List, Option, String, [], any, filter, if◌then◌else◌, leb, length, map, min, none, not,
  some, str_eq, suc, true, truthy, value_or, zero, ℕ, ◌++◌, ◌+◌, ◌-◌, ◌==◌, ◌∷◌,
}
use agent_bus.Roll.{
  Candidate, Runtime, Ticket, has_id, is_approved, is_empty, is_niche, is_number, is_text, narrow,
  one_ticket, rank, ticket_id, tickets_of,
}
use agent_bus.Vocabulary.{has_text}

-- The options; the source's defaults are reroll 0 and count 3.
pub record Request : Type 0 where
  pub scope : String
  pub key : String
  pub reroll : ℕ
  pub mode : Option String
  pub grain : Option String
  pub platform : Option String
  pub count : ℕ

-- The `match` of the result.
pub record Match : Type 0 where
  pub grain : Option String
  pub at_grain : Option ℕ
  pub grain_available : Option ℕ
  pub platform : Option String
  pub platform_excluded : ℕ

-- emptyMatch
unfoldable pub empty_match : Option String → Option String → ℕ → Match
empty_match grain platform excluded = record {
  grain = grain;
  at_grain = if truthy grain then some 0 else none;
  grain_available = if truthy grain then some 0 else none;
  platform = platform;
  platform_excluded = excluded;
}

-- `!Array.isArray(only) || only.length === 0 || only.includes(platform)`
abbrev pub survives : String → Candidate → Bool
survives platform c = elim c.platforms [
  | none ↦ true
  | some [] ↦ true
  | some (p ∷ ps) ↦ has_text (p ∷ ps) platform
]

-- The approved compositions, without the niche ones unless there are no others.
unfoldable pub approved_pool : List Candidate → List Candidate
approved_pool cs = narrow (λ c. not (is_niche c)) (filter is_approved cs)

unfoldable pub mode_pool : Option String → List Candidate → List Candidate
mode_pool mode pool =
    if truthy mode then filter (λ c. is_text (value_or mode "") c.surface) pool else pool

unfoldable pub platform_pool : Option String → List Candidate → List Candidate
platform_pool platform pool =
    if truthy platform then filter (survives (value_or platform "")) pool else pool

-- compositionTickets, with one ticket for each if that gives none.
unfoldable pub composition_tickets : List Candidate → List Ticket
composition_tickets [] = []
composition_tickets (c ∷ cs) =
    let rest = composition_tickets cs in if is_number 1 c.rating then rest else tickets_of c ++ rest

unfoldable pub draw_tickets : List Candidate → List Ticket
unfolding composition_tickets
draw_tickets base =
    if is_empty (composition_tickets base) then map one_ticket base else composition_tickets base

-- The compositions of the grain first.
unfoldable pub by_grain : Option String → List Candidate → List Candidate
by_grain grain ranked =
    if truthy grain
    then filter (λ c. is_text (value_or grain "") c.grain) ranked
      ++ filter (λ c. not (is_text (value_or grain "") c.grain)) ranked
    else ranked

-- `composition.familyId ?? composition.id`
abbrev pub family : Candidate → String
family c = value_or c.family_id c.id

abbrev pub has_family : String → List Candidate → Bool
has_family f cs = any (λ c. str_eq (family c) f) cs

-- The first loop: one of each family. The set of families is that of the picks.
unfoldable pub pick_families : ℕ → List Candidate → List Candidate → List Candidate
pick_families count picks [] = picks
pick_families count picks (c ∷ cs) =
    let more = pick_families count picks cs in
    let next = pick_families count (picks ++ c ∷ []) cs in
    if has_family (family c) picks
    then more
    else if leb count (length (picks ++ c ∷ []))
    then picks ++ c ∷ []
    else next

-- The second loop: up to the count with what is not picked.
unfoldable pub top_up : ℕ → List Candidate → List Candidate → List Candidate
top_up count picks [] = picks
top_up count picks (c ∷ cs) =
    let more = top_up count picks cs in
    let next = top_up count (picks ++ c ∷ []) cs in
    if leb count (length picks) then picks else if has_id c.id picks then more else next

unfoldable pub picks_of : ℕ → List Candidate → List Candidate
unfolding pick_families top_up
picks_of count ordered = top_up count (pick_families count [] ordered) ordered

-- `approved.filter((composition) => !prior.has(composition.id))`
abbrev pub unseen : List Candidate → List Candidate → List Candidate
unseen prior pool = filter (λ c. not (has_id c.id prior)) pool

-- What a round draws from: the compositions of no earlier round, or all if those are too few.
unfoldable pub base_of : ℕ → List Candidate → List Candidate → List Candidate
base_of count prior pool =
    if leb (min count (length pool)) (length (unseen prior pool)) then unseen prior pool else pool

module _ (r : Runtime) where
  -- The salt of the ranking.
  unfoldable pub staging_input : Request → ℕ → String
  staging_input q round =
      let base = join q.scope (join ":" (join q.key ":staging")) in
      if round == 0 then base else join base (join ":reroll-" (r.print_number round))

  -- The compositions of a base, ranked by ticket and with the grain first.
  unfoldable pub ordered_of : Request → ℕ → List Candidate → List Candidate
  unfolding by_grain draw_tickets
  ordered_of q round base =
      by_grain q.grain
        (map (λ t. t.candidate) (rank r (ticket_id r) (draw_tickets base) (staging_input q round)))

  -- The picks of a round.
  unfoldable pub draw : Request → ℕ → List Candidate → List Candidate → List Candidate
  unfolding ordered_of picks_of base_of
  draw q round prior pool = picks_of q.count (ordered_of q round (base_of q.count prior pool))

  -- The rounds from `round` on, `left` of them behind it.
  unfoldable pub draw_rounds : Request → ℕ → ℕ → List Candidate → List Candidate → List Candidate
  unfolding draw
  draw_rounds q zero round prior pool = draw q round prior pool
  draw_rounds q (suc left) round prior pool =
      draw_rounds q left (round + 1) (prior ++ draw q round prior pool) pool

  -- selectApprovedCompositions
  unfoldable pub select_compositions : Request → List Candidate → List Candidate × Match
  unfolding approved_pool mode_pool platform_pool draw_rounds empty_match
  select_compositions q compositions =
      let approved = approved_pool compositions in
      let matching = mode_pool q.mode approved in
      let surviving = platform_pool q.platform matching in
      let excluded = length matching - length surviving in
      let picks = draw_rounds q q.reroll 0 [] surviving in
      if is_empty matching
      then ([], empty_match q.grain q.platform 0)
      else if is_empty surviving
      then ([], empty_match q.grain q.platform excluded)
      else (
        picks,
        record {
          grain = q.grain;
          at_grain =
              if truthy q.grain
              then some (length (filter (λ c. is_text (value_or q.grain "") c.grain) picks))
              else none;
          grain_available =
              if truthy q.grain
              then some (length (filter (λ c. is_text (value_or q.grain "") c.grain) surviving))
              else none;
          platform = q.platform;
          platform_excluded = excluded;
        },
      )
