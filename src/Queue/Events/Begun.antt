-- ===== src/Queue/Events/Begun.antt =====
-- How an agent_phase begins a session (live-server.mjs, POST /events and recordAgentPhase).
use agent_bus.Queue.Phases.{Site, put_slot}
use agent_bus.Queue.Events.{Message, handle_event, report_phase, reported_phase}
use agent_bus.Session.{Clock, Event}
use agent_bus.Session.Journal.{Line}
use agent_bus.Session.Store.{
  Slot, append_line, append_normalized, finish_append, persist, safe_session_id, has,
}
use agent_bus.Shared.{String, eq_iff, false, refl, some, str_eq, true, ℕ, ◌≡◌}
use agent_bus.Validation.{accepted}
use agent_bus.Vocabulary.{agent_phase}
use agent_bus.Roll.{is_text}
use agent_bus.Validation.Messages.{validate_event}
use agent_bus.Queue.Phases.Lines.{append_event_lem}

module _ (bytes : Line → ℕ) (c : Clock) where
  append_normalized-has :
      (e : Event) (s : Slot) → has bytes c (append_normalized bytes c e s).1 ≡ true
  unfolding has append_normalized finish_append append_line persist
  append_normalized-has e s = refl

  put_slot-has :
      (id : String) (s : Slot) (site : Site)
      → has bytes c s ≡ true
      → has bytes c ((put_slot id s site).slots id) ≡ true
  put_slot-has id s site h = rw ((eq_iff id id).1 refl) h

  report_phase-has :
      (e : Event) (site : Site)
      → str_eq e.id "" ≡ false
      → safe_session_id e.id ≡ true
      → has bytes c ((report_phase bytes c e site).site.slots e.id) ≡ true
  unfolding report_phase
  report_phase-has e site i k =
      let report = reported_phase c.now e in
      rw i (
        rw (append_event_lem bytes c report (site.slots e.id) i refl k) (
          put_slot-has e.id (append_normalized bytes c report (site.slots e.id)).1 site
            (append_normalized-has report (site.slots e.id))))

  -- An agent_phase with the token of the server, that the validation accepts and whose id is a
  -- session id, leaves a journal of that session, also where the store did not know the session.
  pub agent_phase_begins :
      (token : String) (m : Message) (site : Site)
      → is_text token m.event.token ≡ true
      → m.event.type ≡ agent_phase
      → validate_event m.value ≡ accepted
      → str_eq m.event.id "" ≡ false
      → safe_session_id m.event.id ≡ true
      → has bytes c ((handle_event bytes c token (some m) site).site.slots m.event.id) ≡ true
  unfolding handle_event
  agent_phase_begins token m site u t v i k = rw u (rw t (rw v (report_phase-has m.event site i k)))
