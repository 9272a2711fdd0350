-- ===== src/Queue/Events/Cases.antt =====
-- The branches of the handler of POST /events of live-server.mjs, for the proofs about all of them.
use agent_bus.Queue.Phases.{Site}
use agent_bus.Queue.Events.{
  phase_recorded, taken, Message, Answer, Handled, admit, answer_with, append_and_forward,
  by_verdict, creates_session, handle_event, invalid_event, manual_apply_refused,
  manual_edits_refused, missed_completion, raised, report_phase, unauthorized, unknown_session,
}
use agent_bus.Shared.{
  refl, Bool-cases, String, false, if◌then◌else◌, inl, inr, some, str_eq, true, ℕ, ◌||◌, ◌≡◌, Bool,
  not,
}
use agent_bus.Session.{Clock}
use agent_bus.Session.Journal.{Line}
use agent_bus.Validation.{
  Verdict, about, accepted, forbidden_text, missing_message, throws, unknown_phase,
}
use agent_bus.Vocabulary.{agent_phase, manual_edit_apply, manual_edits, type_eq}
use agent_bus.Roll.{is_text}
use agent_bus.Session.Store.{safe_session_id, has}
use agent_bus.Validation.Messages.{validate_event}

-- The answers but those of status 200.
abbrev pub is_refusal : Answer → Bool
is_refusal phase_recorded = false
is_refusal taken = false
is_refusal _ = true

module _ (bytes : Line → ℕ) (c : Clock) where
  -- The gate: a refusal, or the append.
  pub of_gate {κ} :
      (m : Message) (site : Site) (P : Handled → Type κ)
      → ((a : Answer) → is_refusal a ≡ true → P (answer_with a site))
      → P (append_and_forward bytes c m (missed_completion bytes c m.event site))
      → P (admit bytes c m site)
  unfolding admit
  of_gate m site P quits goes =
      by_tests (str_eq m.event.id "" || creates_session m.event.type) (safe_session_id m.event.id)
        (has bytes c (site.slots m.event.id))
    where
      by_tests :
          (exempt safe known : Bool)
          → P (
              if exempt
              then append_and_forward bytes c m (missed_completion bytes c m.event site)
              else if not safe
              then answer_with raised site
              else if known
              then append_and_forward bytes c m (missed_completion bytes c m.event site)
              else answer_with unknown_session site)
      by_tests true safe known = goes
      by_tests false false known = quits raised refl
      by_tests false true true = goes
      by_tests false true false = quits unknown_session refl

  of_verdict {κ} :
      (m : Message) (site : Site) (P : Handled → Type κ)
      → ((a : Answer) → is_refusal a ≡ true → P (answer_with a site))
      → P (
          if type_eq m.event.type agent_phase
          then report_phase bytes c m.event site
          else admit bytes c m site)
      → (v : Verdict) → P (by_verdict bytes c v m site)
  of_verdict m site P quits goes accepted = goes
  of_verdict m site P quits goes missing_message = quits (invalid_event missing_message) refl
  of_verdict m site P quits goes (about x y) = quits (invalid_event (about x y)) refl
  of_verdict m site P quits goes (unknown_phase x) = quits (invalid_event (unknown_phase x)) refl
  of_verdict m site P quits goes (forbidden_text x y) =
      quits (invalid_event (forbidden_text x y)) refl
  of_verdict m site P quits goes (Verdict.unknown_event_type x) =
      quits (invalid_event (Verdict.unknown_event_type x)) refl
  of_verdict m site P quits goes throws = quits raised refl

  -- What a refusal, the gate and an agent_phase have, the handler of a message has.
  pub of_handler {κ} :
      (token : String) (m : Message) (site : Site) (P : Handled → Type κ)
      → ((a : Answer) → is_refusal a ≡ true → P (answer_with a site))
      → (type_eq m.event.type agent_phase ≡ false → P (admit bytes c m site))
      → (type_eq m.event.type agent_phase ≡ true → P (report_phase bytes c m.event site))
      → P (handle_event bytes c token (some m) site)
  unfolding handle_event
  of_handler token m site P quits goes phase = elim (Bool-cases (is_text token m.event.token)) [
    | inr e ↦ rw e (quits unauthorized refl)
    | inl e ↦ elim (Bool-cases (type_eq m.event.type manual_edits)) [
      | inl k ↦ rw e (rw k (quits manual_edits_refused refl))
      | inr k ↦ elim (Bool-cases (type_eq m.event.type manual_edit_apply)) [
        | inl x ↦ rw e (rw k (rw x (quits manual_apply_refused refl)))
        | inr x ↦
            rw e (
              rw k (rw x (of_verdict m site P quits (by_type goes phase) (validate_event m.value))))
      ]
    ]
  ]
    where
      by_type :
          (type_eq m.event.type agent_phase ≡ false → P (admit bytes c m site))
          → (type_eq m.event.type agent_phase ≡ true → P (report_phase bytes c m.event site))
          → P (
              if type_eq m.event.type agent_phase
              then report_phase bytes c m.event site
              else admit bytes c m site)
      by_type f g = elim (Bool-cases (type_eq m.event.type agent_phase)) [
        | inl t ↦ rw t (g t)
        | inr t ↦ rw t (f t)
      ]
