-- ===== src/Roll/Compositions/Eligible.antt =====
-- What a dealt composition is sure to be (lib/roll-selection.mjs, selectApprovedCompositions).
-- Approved, of the mode that is asked for, and fit for the platform that is asked for.
use agent_bus.Shared.{
  All, All-filter, All-filter_test, All-map_pred, Bool, Bool-cases, List, [], false, filter,
  if◌then◌else◌, inl, inr, true, truthy, value_or, ◌∷◌, ◌≡◌, All-Mem, not, refl,
}
use agent_bus.Roll.Compositions.Picks.{All-draw_rounds}
use agent_bus.Roll.{Candidate, Runtime, is_approved, is_empty, is_text, narrow, is_niche}
use mathlib.Core.List.{Memᴰ}
use agent_bus.Roll.Compositions.{
  Request, approved_pool, mode_pool, platform_pool, select_compositions, survives,
}

abbrev pub IsEligible : Request → Candidate → Type 0
IsEligible q c =
    (is_approved c ≡ true)
    × (truthy q.mode ≡ true → is_text (value_or q.mode "") c.surface ≡ true)
    × (truthy q.platform ≡ true → survives (value_or q.platform "") c ≡ true)

pub All-narrow {κ} :
    (P : Candidate → Type κ) (test : Candidate → Bool) (pool : List Candidate)
    → All P pool
    → All P (narrow test pool)
All-narrow P test pool h = elim (Bool-cases (is_empty (filter test pool))) [
  | inl e ↦ rw e h
  | inr e ↦ rw e (All-filter P test pool h)
]

pub All-when {κ} :
    (P : Candidate → Type κ) (b : Bool) (test : Candidate → Bool) (pool : List Candidate)
    → All P pool
    → All (λ c. P c × (b ≡ true → test c ≡ true)) (if b then filter test pool else pool)
All-when P true test pool h =
    All-both (filter test pool) (All-filter P test pool h) (All-filter_test test pool)
  where
    All-both :
        (xs : List Candidate)
        → All P xs
        → All (λ c. test c ≡ true) xs
        → All (λ c. P c × (true ≡ true → test c ≡ true)) xs
    All-both [] h k = tt
    All-both (x ∷ xs) h k = ((h.0, λ e. k.0), All-both xs h.1 k.1)
All-when P false test pool h =
    All-map_pred P (λ c. P c × (false ≡ true → test c ≡ true)) pool (λ c p. (p, λ e. cc e)) h

-- Every composition that is dealt is one of the catalog, is approved, is of the mode asked for, and
-- survives on the platform asked for: no fallback, re-roll or top-up lends from elsewhere.
pub select_compositions-IsEligible :
    (r : Runtime) (q : Request) (compositions : List Candidate)
    → All (λ c. Memᴰ c compositions × IsEligible q c) (select_compositions r q compositions).0
unfolding select_compositions approved_pool mode_pool platform_pool
select_compositions-IsEligible r q compositions =
    let approved = approved_pool compositions in
    let matching = mode_pool q.mode approved in
    let surviving = platform_pool q.platform matching in
    let eligible : All (λ c. Memᴰ c compositions × IsEligible q c) surviving =
      let in_mode = λ (c : Candidate). is_text (value_or q.mode "") c.surface in
      let fit = survives (value_or q.platform "") in
      let known = λ (c : Candidate). Memᴰ c compositions × (true ≡ true → is_approved c ≡ true) in
      let moded = λ (c : Candidate). known c × (truthy q.mode ≡ true → in_mode c ≡ true) in
      All-map_pred (λ c. moded c × (truthy q.platform ≡ true → fit c ≡ true))
        (λ c. Memᴰ c compositions × IsEligible q c) surviving
        (λ c h. (h.0.0.0, (h.0.0.1 refl, h.0.1, h.1)))
        (All-when moded (truthy q.platform) fit matching (
          All-when known (truthy q.mode) in_mode approved (
            All-narrow known (λ c. not (is_niche c)) (filter is_approved compositions)
              (All-when (λ c. Memᴰ c compositions) true is_approved compositions
                (All-Mem compositions))))) in
    elim (Bool-cases (is_empty matching)) [
      | inl e ↦ rw e tt
      | inr e ↦ elim (Bool-cases (is_empty surviving)) [
        | inl f ↦ rw e (rw f tt)
        | inr f ↦ rw e (
            rw f (
              All-draw_rounds (λ c. Memᴰ c compositions × IsEligible q c) r q q.reroll 0 []
                surviving eligible))
      ]
    ]
