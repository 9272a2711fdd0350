-- ===== src/Completion/Agreement.antt =====
-- The acknowledgement that an agent gets agrees with the phase of the session (live/completion.mjs,
-- live/session-store.mjs, live-server.mjs).
use agent_bus.Completion.{AcceptResult, Ack, completion_ack, completion_reply, completion_type}
use agent_bus.Session.{Clock, Entry, Event, Snapshot, late_generation_event_ignored}
use agent_bus.Vocabulary.{
  EventType, completed_session_phases, discard, has_text, agent_done, type_eq, accept,
}
use agent_bus.Shared.{
  Option, String, false, str_eq, ◌||◌, ◌≡◌, Bool, true, ap, if◌then◌else◌, not, refl, ◌&&◌, none,
  some, sym, value_or, ◌∙◌, Bool-cases, inl, inr, ◌⊎◌,
}
use agent_bus.Session.Apply.{
  completed_generation, on_completion, apply_event, copy_snapshot, dispatch,
}
use agent_bus.Session.Handlers.{
  derive_render_state, fenced, is_carbonize_handoff, is_closed, push_diagnostic, is_generate_source,
  on_agent_error, finish, on_discarded,
}
use agent_bus.Queue.Posts.{FileMeta, reply_event, journal_type}
use agent_bus.Queue.{Queued}
use mathlib.Core.Bool.{false≢true}
use agent_bus.Roll.{is_text}
use mathlib.Core.Path.{subst}

-- The phase that a session is in while the user's choice waits.
abbrev pub requested_phase : EventType → String
requested_phase discard = "discard_requested"
requested_phase other_type = "accept_requested"

-- The agent is told to complete the session exactly where its cleanup is still to come, and the type
-- of the acknowledgement is a final one exactly where the session is over.
abbrev pub IsAgreed : Ack → Snapshot → Type 0
IsAgreed ack s =
    (ack.requires_complete ≡ str_eq s.phase "carbonize_required")
    × ((str_eq ack.type "complete" || str_eq ack.type "discarded")
        ≡ has_text completed_session_phases s.phase)

either : (a b : Bool) → b ≡ true → (a || b) ≡ true
either true b h = refl
either false b h = h

requested-closed : (n : Snapshot) → n.phase ≡ "accept_requested" → is_closed n ≡ true
unfolding is_closed fenced
requested-closed n p = either n.generation_canceled (fenced n.phase) (ap fenced p)

handoff_carbonize :
    (x : Event) (n : Snapshot)
    → type_eq x.type agent_done ≡ true
    → n.phase ≡ "accept_requested"
    → is_carbonize_handoff x n ≡ x.carbonize
unfolding is_carbonize_handoff
handoff_carbonize x n t p = rw t (
    at_phase x.carbonize (str_eq n.phase "accept_requested")
      (ap (λ s. str_eq s "accept_requested") p))
  where
    at_phase : (a b : Bool) → b ≡ true → (a && b) ≡ a
    at_phase true b h = h
    at_phase false b h = refl

-- What is left of an answer in the tests of completion_type.
abbrev answer_of :
    Bool → Bool → Option String → Option String → Option String → Option String → AcceptResult
answer_of handled carbonize mode preview error file = record {
  handled = handled;
  carbonize = carbonize;
  mode = mode;
  preview_mode = preview;
  error = error;
  file = file;
}

module _ (c : Clock) where
  -- An accept that is not carbonized leaves its request standing when the store hears `agent_done`,
  -- and one that is carbonized asks for the cleanup.
  phase-agent_done :
      (en : Entry) (x : Event) (n : Snapshot)
      → type_eq x.type agent_done ≡ true
      → n.phase ≡ "accept_requested"
      → (on_completion c en x n).phase
        ≡ (if x.carbonize then "carbonize_required" else "accept_requested")
  unfolding on_completion push_diagnostic completed_generation
  phase-agent_done en x n t p =
      rw (requested-closed n p) (rw (handoff_carbonize x n t p) (by_handoff x.carbonize))
    where
      by_handoff :
          (b : Bool)
          → (if true && not b
              then push_diagnostic (late_generation_event_ignored x.type n.phase) n
              else (let done = completed_generation c en x n in
                  record done {
                    render_state = derive_render_state done;
                    phase = if b then "carbonize_required" else "variants_ready";
                  })).phase
            ≡ (if b then "carbonize_required" else "accept_requested")
      by_handoff true = refl
      by_handoff false = p

  IsAgreed-at :
      (ack : Ack) (s : Snapshot) (phase : String)
      → s.phase ≡ phase
      → ack.requires_complete ≡ str_eq phase "carbonize_required"
      → (str_eq ack.type "complete" || str_eq ack.type "discarded")
        ≡ has_text completed_session_phases phase
      → IsAgreed ack s
  IsAgreed-at ack s phase e h k = (
    h ∙ ap (λ p. str_eq p "carbonize_required") (sym e),
    k ∙ ap (λ p. has_text completed_session_phases p) (sym e),
  )

  phase-agent_error :
      (x : Event) (n : Snapshot)
      → ((on_agent_error x n).phase ≡ n.phase) ⊎ ((on_agent_error x n).phase ≡ "agent_error")
  unfolding on_agent_error push_diagnostic
  phase-agent_error x n =
      elim (Bool-cases (n.generation_canceled && is_generate_source x.source_event_type)) [
        | inl e ↦ inl (rw e refl)
        | inr e ↦ inr (rw e refl)
      ]

  -- The acknowledgement of a reply that is neither final nor asks for a cleanup.
  abbrev open_ack : String → Ack
  open_ack type = record { ok = true; type = type; requires_complete = false; next_command = none }

  module _ (id : String) (a : AcceptResult) (f : FileMeta) (q : Option Queued) (t : EventType)
      (en : Entry) (n : Snapshot) where
    abbrev heard : String → Event
    heard type =
        reply_event
          (record {
            type = type;
            id = id;
            source_event_type = some t;
            file = a.file;
            message = a.error;
            carbonize = a.carbonize;
          })
          f q

    error_agrees :
        (phase : String)
        → n.phase ≡ phase
        → str_eq phase "carbonize_required" ≡ false
        → has_text completed_session_phases phase ≡ false
        → IsAgreed (open_ack "error") (on_agent_error (heard "error") n)
    error_agrees phase p h k = elim (phase-agent_error (heard "error") n) [
      | inl e ↦
          IsAgreed-at (open_ack "error") (on_agent_error (heard "error") n) phase (e ∙ p) (sym h)
            (sym k)
      | inr e ↦
          IsAgreed-at (open_ack "error") (on_agent_error (heard "error") n) "agent_error" e refl
            refl
    ]

    done_agrees :
        a.carbonize ≡ false
        → n.phase ≡ "accept_requested"
        → IsAgreed (open_ack "agent_done") (on_completion c en (heard "agent_done") n)
    unfolding reply_event journal_type
    done_agrees x p =
        IsAgreed-at (open_ack "agent_done") (on_completion c en (heard "agent_done") n)
          "accept_requested"
          (phase-agent_done en (heard "agent_done") n refl p
            ∙ ap (λ (v : Bool). if v then "carbonize_required" else "accept_requested") x)
          refl refl

  -- An accept, by what the script answered of it.
  accept_agrees :
      (handled carbonize : Bool) (mode preview error file : Option String) (id : String)
      (f : FileMeta) (q : Option Queued) (en : Entry) (n : Snapshot)
      → (carbonize ≡ true → handled ≡ true)
      → n.phase ≡ "accept_requested"
      → let a = answer_of handled carbonize mode preview error file in
        let type = completion_type accept a in
        let x = heard id a f q accept en n type in
        IsAgreed (completion_ack id type a) (dispatch c x.type en x n)
  unfolding completion_ack completion_type reply_event journal_type dispatch finish
  accept_agrees true true mode preview error file id f q en n h p =
      let a = answer_of true true mode preview error file in
      let x = heard id a f q accept en n "agent_done" in
      IsAgreed-at (completion_ack id "agent_done" a) (on_completion c en x n) "carbonize_required"
        (phase-agent_done en x n refl p) refl refl
  accept_agrees true false mode preview error file id f q en n h p = (refl, refl)
  accept_agrees false true mode preview error file id f q en n h p = absurd (false≢true (h refl))
  accept_agrees false false mode preview error file id f q en n h p =
      by_tests (is_text "error" mode) (is_text "svelte-component" preview)
    where
      a : AcceptResult
      a = answer_of false false mode preview error file

      text : Bool → Bool → String
      text b d = if b then "error" else if d then "error" else "agent_done"

      by_tests :
          (b d : Bool)
          → IsAgreed (open_ack (text b d)) (
              dispatch c
                (heard id a f q accept en n (text b d)).type
                en
                (heard id a f q accept en n (text b d))
                n)
      by_tests true d = error_agrees id a f q accept en n "accept_requested" p refl refl
      by_tests false true = error_agrees id a f q accept en n "accept_requested" p refl refl
      by_tests false false = done_agrees id a f q accept en n refl p

  discard_agrees :
      (handled : Bool) (mode preview error file : Option String) (id : String) (f : FileMeta)
      (q : Option Queued) (en : Entry) (n : Snapshot)
      → n.phase ≡ "discard_requested"
      → let a = answer_of handled false mode preview error file in
        let type = completion_type discard a in
        let x = heard id a f q discard en n type in
        IsAgreed (completion_ack id type a) (dispatch c x.type en x n)
  unfolding completion_ack completion_type reply_event journal_type dispatch on_discarded
  discard_agrees true mode preview error file id f q en n p = (refl, refl)
  discard_agrees false mode preview error file id f q en n p =
      error_agrees id (answer_of false false mode preview error file) f q discard en n
        "discard_requested" p refl refl

  -- What is shown of a type of event and an answer.
  abbrev Agreed :
      EventType → AcceptResult → String → FileMeta → Option Queued → Entry → Snapshot → Type 0
  Agreed t a id f q en n =
      let x = heard id a f q t en n (completion_type t a) in
      IsAgreed (completion_ack id (completion_type t a) a) (dispatch c x.type en x n)

  -- The reply of an accept or a discard, in the journal of a session that waits for it, puts the
  -- session into a phase that agrees with the acknowledgement, whatever the script answered, if it
  -- asks for a cleanup only of an accept that it has handled.
  pub completion_ack-IsAgreed :
      (e : Event) (a : AcceptResult) (f : FileMeta) (q : Option Queued) (s : Snapshot) (en : Entry)
      → (e.type ≡ accept) ⊎ ((e.type ≡ discard) × (a.carbonize ≡ false))
      → (a.carbonize ≡ true → a.handled ≡ true)
      → s.phase ≡ requested_phase e.type
      → en.event ≡ some (reply_event (completion_reply e a) f q)
      → IsAgreed (completion_ack e.id (completion_type e.type a) a) (apply_event c s en)
  unfolding apply_event completion_reply copy_snapshot
  completion_ack-IsAgreed e a f q s en t h p k =
      let n = copy_snapshot c s en in
      let asked : Agreed e.type a e.id f q en n = elim t [
        | inl y ↦
            subst (λ (x : EventType). Agreed x a e.id f q en n) (sym y)
              (accept_agrees a.handled a.carbonize a.mode a.preview_mode a.error a.file e.id f q en
                n h (p ∙ ap requested_phase y))
        | inr (y, z) ↦
            subst (λ (x : EventType). Agreed x a e.id f q en n) (sym y)
              (subst
                (λ (b : Bool).
                  Agreed discard (answer_of a.handled b a.mode a.preview_mode a.error a.file) e.id f
                    q en n)
                (sym z)
                (discard_agrees a.handled a.mode a.preview_mode a.error a.file e.id f q en n
                  (p ∙ ap requested_phase y)))
      ] in
      subst
        (λ (x : Event).
          IsAgreed (completion_ack e.id (completion_type e.type a) a) (dispatch c x.type en x n))
        (sym (ap (λ o. value_or o en.own) k)) asked
