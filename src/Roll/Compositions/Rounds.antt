-- ===== src/Roll/Compositions/Rounds.antt =====
-- A round of a roll deals without repeats, up to the count, and nothing short of it
-- (lib/roll-selection.mjs).
use agent_bus.Shared.{
  All, Bool-cases, List, String, [], any, false, filter, inl, inr, length, map, min, not, str_eq,
  true, truthy, value_or, ℕ, ◌<◌, ◌∙◌, ◌≡◌, ◌≤◌, All-filter_test, All-map_pred, Bool, refl, ◌∷◌,
  arith, leb, not-false,
}
use agent_bus.Roll.Compositions.Picks.{All-draw_base, All-ordered_of, All-base_of}
use agent_bus.Roll.{
  Candidate, Runtime, has_id, is_number, is_text, rank, ticket_id, Ticket, is_empty,
}
use agent_bus.Roll.Compositions.Spread.{
  NoRepeat, NoRepeat-pick_families, NoRepeat-top_up, any-composition_tickets, any-split,
  has_id-top_up_short, length-pick_families, length-top_up,
}
use agent_bus.Roll.Compositions.{
  Request, base_of, by_grain, composition_tickets, draw, draw_tickets, family, ordered_of,
  pick_families, picks_of, staging_input, unseen,
}
use agent_bus.Roll.Ranks.{any-map, any-rank}

any-filled : (test : Ticket → Bool) (ts : List Ticket) → any test ts ≡ true → is_empty ts ≡ false
any-filled test [] h = cc
any-filled test (t ∷ ts) h = refl

le→leb : (a b : ℕ) → a ≤ b → leb a b ≡ true
le→leb a b h = ground arith

-- What no earlier round dealt.
pub All-unseen :
    (prior pool : List Candidate) → All (λ c. has_id c.id prior ≡ false) (unseen prior pool)
All-unseen prior pool =
    All-map_pred (λ c. not (has_id c.id prior) ≡ true) (λ c. has_id c.id prior ≡ false)
      (unseen prior pool) (λ c k. not-false (has_id c.id prior) k)
      (All-filter_test (λ c. not (has_id c.id prior)) pool)

module _ (r : Runtime) (q : Request) (round : ℕ) (prior pool : List Candidate) where
  abbrev base : List Candidate
  base = base_of q.count prior pool

  -- A round deals no composition twice and at most as many as asked for, when that is at least one
  -- and compositions of the pool with one id have one family.
  pub draw_spread :
      (f : String → String)
      → All (λ c. family c ≡ f c.id) pool
      → 1 ≤ q.count
      → NoRepeat (draw r q round prior pool) × (length (draw r q round prior pool) ≤ q.count)
  unfolding draw picks_of
  draw_spread f h n =
      let ordered = ordered_of r q round base in
      let known =
        All-ordered_of (λ c. family c ≡ f c.id) r q round base
          (All-base_of (λ c. family c ≡ f c.id) q.count prior pool h) in
      (
        NoRepeat-top_up q.count (pick_families q.count [] ordered) ordered
            (NoRepeat-pick_families f q.count [] ordered tt known tt),
        length-top_up q.count (pick_families q.count [] ordered) ordered
            (length-pick_families q.count [] ordered n),
      )

  -- The tickets keep every id that the draw can deal.
  has_id-ordered_of :
      (id : String)
      → has_id id (filter (λ c. not (is_number 1 c.rating)) base) ≡ true
      → has_id id (ordered_of r q round base) ≡ true
  unfolding ordered_of by_grain draw_tickets
  has_id-ordered_of id h =
      let kept = any-composition_tickets id base h in
      let drawn : any (λ t. str_eq t.candidate.id id) (draw_tickets base) ≡ true =
        rw (any-filled (λ t. str_eq t.candidate.id id) (composition_tickets base) kept) kept in
      let ranked = rank r (ticket_id r) (draw_tickets base) (staging_input r q round) in
      let dealt : has_id id (map (λ t. t.candidate) ranked) ≡ true =
        any-map (λ (c : Candidate). str_eq c.id id) (λ t. t.candidate) ranked
        ∙ any-rank r (ticket_id r) (draw_tickets base) (staging_input r q round)
            (λ t. str_eq t.candidate.id id)
        ∙ drawn in
      elim (Bool-cases (truthy q.grain)) [
        | inl e ↦
            rw e
              (any-split (λ c. str_eq c.id id) (λ c. is_text (value_or q.grain "") c.grain) _ dealt)
        | inr e ↦ rw e dealt
      ]

  -- A round that deals fewer compositions than the count has dealt every one of its base whose rating
  -- is not 1.
  pub draw_complete :
      (id : String)
      → length (draw r q round prior pool) < q.count
      → has_id id (filter (λ c. not (is_number 1 c.rating)) (base_of q.count prior pool)) ≡ true
      → has_id id (draw r q round prior pool) ≡ true
  unfolding draw picks_of
  draw_complete id h k =
      let ordered = ordered_of r q round base in
      has_id-top_up_short id q.count (pick_families q.count [] ordered) ordered
        (has_id-ordered_of id k) h

  -- A re-roll repeats no composition of the earlier rounds while as many others are left as a round
  -- can deal.
  pub draw_fresh :
      min q.count (length pool) ≤ length (unseen prior pool)
      → All (λ c. has_id c.id prior ≡ false) (draw r q round prior pool)
  unfolding base_of
  draw_fresh h =
      All-draw_base (λ c. has_id c.id prior ≡ false) r q round prior pool
        (rw (le→leb (min q.count (length pool)) (length (unseen prior pool)) h) (
          All-map_pred (λ c. not (has_id c.id prior) ≡ true) (λ c. has_id c.id prior ≡ false)
            (unseen prior pool) (λ c k. not-false (has_id c.id prior) k)
            (All-filter_test (λ c. not (has_id c.id prior)) pool)))
