-- ===== src/Examples/Rolls.antt =====
-- Rolls of small catalogs (lib/roll-selection.mjs).
use agent_bus.Roll.Challengers.{Request as ChallengersRequest, select_challengers}
use Prim.Native.String.{compare}
use agent_bus.Shared.{
  All, List, Option, String, [], arith, if◌then◌else◌, length, none, refl, some, true, ℕ, ◌<◌, ◌==◌,
  ◌∷◌, ◌≡◌, ◌≤◌,
}
use agent_bus.Roll.{Candidate, Runtime, has_id, insert_ranked, rank, ranks_before, sort_ranked}
use agent_bus.Roll.Compositions.Eligible.{IsEligible, select_compositions-IsEligible}
use agent_bus.Roll.Challengers.Fair.{IsFair, select_challengers-IsFair}
use mathlib.Core.List.{Memᴰ}
use agent_bus.Roll.Compositions.Spread.{NoRepeat}
use agent_bus.Roll.Compositions.{
  Request, base_of, by_grain, composition_tickets, draw, draw_tickets, ordered_of, pick_families,
  picks_of, select_compositions, staging_input, top_up,
}
use agent_bus.Roll.Compositions.Rounds.{draw_complete, draw_spread}

abbrev candidate : String → String → Option ℕ → Candidate
candidate id tier rating = record {
  id = id;
  status = "approved";
  breadth = none;
  rating = rating;
  allowed_modes = none;
  family_id = none;
  well_tier = some tier;
  strength = some "world";
  surface = some "app";
  grain = some "view";
  platforms = none;
}

abbrev runtime : Runtime
runtime = record {
  hash = λ s. s;
  locale_compare = compare;
  print_number = λ n. if n == 0 then "0" else "1";
}

abbrev catalog : List Candidate
catalog =
    candidate "a" "graphic" (some 3)
    ∷ candidate "b" "interaction" none
    ∷ candidate "c" "atmosphere" (some 1)
    ∷ []

abbrev wish : Request
wish = record {
  scope = "direction";
  key = "k";
  reroll = 1;
  mode = some "app";
  grain = some "view";
  platform = some "web";
  count = 4;
}

abbrev challenge : ChallengersRequest
challenge = record { scope = "direction"; key = "k"; reroll = 1; min_rating = 2; mode = some "app" }

select_compositions-IsEligible_example :
    All (λ c. Memᴰ c catalog × IsEligible wish c) (select_compositions runtime wish catalog).0
select_compositions-IsEligible_example = select_compositions-IsEligible runtime wish catalog

draw_spread_example :
    NoRepeat (draw runtime wish 0 [] catalog) × (length (draw runtime wish 0 [] catalog) ≤ 4)
draw_spread_example =
    draw_spread runtime wish 0 [] catalog (λ id. id) (refl, (refl, (refl, tt))) (omega arith)

few_drawn : length (draw runtime wish 0 [] catalog) < 4
unfolding draw picks_of top_up pick_families ordered_of by_grain draw_tickets composition_tickets
    base_of rank sort_ranked insert_ranked ranks_before staging_input
few_drawn = omega arith

draw_complete_example : has_id "b" (draw runtime wish 0 [] catalog) ≡ true
draw_complete_example =
    draw_complete runtime wish 0 [] catalog "b" few_drawn (unfold base_of in refl)

select_challengers-IsFair_example : IsFair catalog (select_challengers runtime challenge catalog)
select_challengers-IsFair_example = select_challengers-IsFair runtime challenge catalog
