-- ===== src/Generation/Progress.antt =====
-- No phase of a generation is recorded twice (live-server.mjs).
-- The journal entries of the phases, one after another; `entry_for` is what appendEvent makes of an
-- agent_phase event.
use mathlib.Core.Bool.{false≢true}
use agent_bus.Session.{Clock, Entry, Snapshot, Timing, Event}
use agent_bus.Shared.{
  List, String, [], arith, if◌then◌else◌, some, str_eq, true, ◌∷◌, ◌≡◌, Bool-cases, ap, eq_iff,
  false, inl, inr, refl, ◌&&◌, sym, ◌∙◌, Bool, leb, not, value_or, ◌++◌, ◌⊎◌,
}
use agent_bus.Vocabulary.{agent_phase, EventType}
use agent_bus.Session.Apply.{apply_event, copy_snapshot, dispatch, on_agent_phase}
use agent_bus.Session.Handlers.{entry_event, put_timing}
use agent_bus.Generation.{
  has_timing, generation_phase_already_recorded, is_progress, record_generation_checkpoint,
  record_if,
}

module _ (c : Clock) (entry_for : String → Entry) where
  abbrev pub record_phases : List String → Snapshot → Snapshot
  record_phases [] s = s
  record_phases (p ∷ ps) s = record_phases ps (apply_event c s (entry_for p))

  -- Each entry is an agent_phase event that has its phase.
  abbrev pub IsPhaseEntry : Type 0
  IsPhaseEntry =
      (p : String)
      → ((entry_event (entry_for p)).type ≡ agent_phase)
        × ((entry_event (entry_for p)).phase ≡ some p)

  not_both : (k p q : String) → str_eq k p ≡ false → (str_eq k q && str_eq p q) ≡ false
  not_both k p q h = elim (Bool-cases (str_eq k q && str_eq p q)) [
    | inr e ↦ e
    | inl e ↦
        let a : k ≡ q = (eq_iff k q).0 (ground arith) in
        let b : p ≡ q = (eq_iff p q).0 (ground arith) in
        absurd (false≢true (sym h ∙ (eq_iff k p).1 (a ∙ sym b)))
  ]

  has-put_timing :
      (q p : String) (t : Timing) (ts : List (String × Timing))
      → has_timing q (put_timing p t ts) ≡ (if str_eq p q then true else has_timing q ts)
  unfolding has_timing put_timing
  has-put_timing q p t [] = ground arith
  has-put_timing q p t ((k, u) ∷ ts) = elim (Bool-cases (str_eq k p)) [
    | inl e ↦
        let same : str_eq k q ≡ str_eq p q = ap (λ (x : String). str_eq x q) ((eq_iff k p).0 e) in
        rw e (ground (arith, same))
    | inr e ↦
        let other : (str_eq k q && str_eq p q) ≡ false = not_both k p q e in
        rw e (ground (arith, has-put_timing q p t ts))
  ]

  canceled-phase :
      (t : EventType) (en : Entry) (s : Snapshot) (p : String)
      → t ≡ agent_phase
      → (entry_event en).phase ≡ some p
      → str_eq p "" ≡ false
      → ((dispatch c t en (entry_event en) (copy_snapshot c s en)).generation_canceled
          ≡ s.generation_canceled)
        × ((q : String)
            → has_timing q
                (dispatch c t en (entry_event en) (copy_snapshot c s en)).generation_timings
              ≡ (if str_eq p q then true else has_timing q s.generation_timings))
  unfolding dispatch on_agent_phase copy_snapshot
  canceled-phase agent_phase en s p h k n =
      (refl, λ q. rw k (rw n (has-put_timing q p _ s.generation_timings)))
  canceled-phase _ en s p h k n = cc

  phase_entry :
      (s : Snapshot) (p : String)
      → IsPhaseEntry
      → str_eq p "" ≡ false
      → ((apply_event c s (entry_for p)).generation_canceled ≡ s.generation_canceled)
        × ((q : String)
            → has_timing q (apply_event c s (entry_for p)).generation_timings
              ≡ (if str_eq p q then true else has_timing q s.generation_timings))
  unfolding apply_event
  phase_entry s p h n =
      canceled-phase (entry_event (entry_for p)).type (entry_for p) s p (h p).0 (h p).1 n

  record_phases-append :
      (xs ys : List String) (s : Snapshot)
      → record_phases (xs ++ ys) s ≡ record_phases ys (record_phases xs s)
  record_phases-append [] ys s = refl
  record_phases-append (p ∷ ps) ys s = record_phases-append ps ys (apply_event c s (entry_for p))

  record_if-phases :
      (b : Bool) (p : String) (s : Snapshot)
      → IsPhaseEntry
      → str_eq p "" ≡ false
      → ((record_phases (record_if b p) s).generation_canceled ≡ s.generation_canceled)
        × ((q : String)
            → has_timing q (record_phases (record_if b p) s).generation_timings
              ≡ (if b && str_eq p q then true else has_timing q s.generation_timings))
  record_if-phases true p s h n = phase_entry s p h n
  record_if-phases false p s h n = (refl, λ q. refl)

  -- The three tests of a checkpoint that reports progress.
  abbrev first_due : Snapshot → Bool
  first_due s = not (has_timing "first_reviewable" s.generation_timings)

  abbrev second_due : Event → Snapshot → Bool
  second_due e s =
      leb 2 (value_or e.arrived_variants 0)
      && leb 3 (value_or e.expected_variants 0)
      && not (has_timing "second_reviewable" s.generation_timings)

  abbrev all_due : Event → Snapshot → Bool
  all_due e s =
      leb (value_or e.expected_variants 0) (value_or e.arrived_variants 0)
      && not (has_timing "all_variants_ready" s.generation_timings)

  none_due :
      (e : Event) (s t : Snapshot)
      → (has_timing "first_reviewable" t.generation_timings
          ≡ (if first_due s then true else has_timing "first_reviewable" s.generation_timings))
      → (has_timing "second_reviewable" t.generation_timings
          ≡ (if second_due e s then true else has_timing "second_reviewable" s.generation_timings))
      → (has_timing "all_variants_ready" t.generation_timings
          ≡ (if all_due e s then true else has_timing "all_variants_ready" s.generation_timings))
      → record_generation_checkpoint e (some t) ≡ []
  unfolding record_generation_checkpoint generation_phase_already_recorded
  none_due e s t f g h = ground (arith, f, g, h)

  all_recorded :
      (e : Event) (s : Snapshot)
      → IsPhaseEntry
      → record_generation_checkpoint e (
          some (
            record_phases
              (record_if (first_due s) "first_reviewable"
                ++ record_if (second_due e s) "second_reviewable"
                ++ record_if (all_due e s) "all_variants_ready")
              s))
        ≡ []
  all_recorded e s h =
      let one = record_phases (record_if (first_due s) "first_reviewable") s in
      let two = record_phases (record_if (second_due e s) "second_reviewable") one in
      let three = record_phases (record_if (all_due e s) "all_variants_ready") two in
      let f1 = record_if-phases (first_due s) "first_reviewable" s h refl in
      let f2 = record_if-phases (second_due e s) "second_reviewable" one h refl in
      let f3 = record_if-phases (all_due e s) "all_variants_ready" two h refl in
      let same =
        record_phases-append
          (record_if (first_due s) "first_reviewable"
            ++ record_if (second_due e s) "second_reviewable")
          (record_if (all_due e s) "all_variants_ready") s
        ∙ ap (record_phases (record_if (all_due e s) "all_variants_ready")) (
            record_phases-append (record_if (first_due s) "first_reviewable")
              (record_if (second_due e s) "second_reviewable") s) in
      ap (λ (x : Snapshot). record_generation_checkpoint e (some x)) same
      ∙ none_due e s three
          (ground
            (arith, f1.1 "first_reviewable", f2.1 "first_reviewable", f3.1 "first_reviewable"))
          (ground
            (arith, f1.1 "second_reviewable", f2.1 "second_reviewable", f3.1 "second_reviewable"))
          (ground (
            arith,
            f1.1 "all_variants_ready",
            f2.1 "all_variants_ready",
            f3.1 "all_variants_ready",
          ))

  recorded_phases :
      (e : Event) (s : Snapshot)
      → (record_generation_checkpoint e (some s) ≡ [])
        ⊎ (record_generation_checkpoint e (some s)
            ≡ record_if (first_due s) "first_reviewable"
              ++ record_if (second_due e s) "second_reviewable"
              ++ record_if (all_due e s) "all_variants_ready")
  unfolding record_generation_checkpoint generation_phase_already_recorded
  recorded_phases e s = elim (Bool-cases (is_progress e (some s))) [
    | inr n ↦ inl (rw n refl)
    | inl y ↦ inr (rw y refl)
  ]

  -- No phase is recorded twice: if the checkpoint comes again, after each phase that it recorded has
  -- gone to the journal as an agent_phase event, it records none.
  pub record_generation_checkpoint-again :
      (e : Event) (s : Snapshot)
      → IsPhaseEntry
      → record_generation_checkpoint e
          (some (record_phases (record_generation_checkpoint e (some s)) s))
        ≡ []
  record_generation_checkpoint-again e s h =
      let again = λ (ps : List String) (p : record_generation_checkpoint e (some s) ≡ ps).
        ap (λ (qs : List String). record_generation_checkpoint e (some (record_phases qs s))) p in
      elim (recorded_phases e s) [ inl n ↦ again [] n ∙ n | inr p ↦ again _ p ∙ all_recorded e s h ]
