-- ===== src/Queue/Events/Contained.antt =====
-- What a message can do to the store (live-server.mjs, POST /events): no other session changes, and
-- no session begins but by the events that begin one.
use agent_bus.Queue.Phases.{Site, put_slot, journal_pickups}
use agent_bus.Queue.Events.{
  Message, admit, append_and_forward, appended_then, creates_session, end_orphan, forward,
  handle_event, is_for_agent, journal_progress, missed_completion, offer, phase_then, report_phase,
  reported_phase, retire, Answer, Handled, answer_with, append_failed, phase_recorded, raised,
  taken,
}
use agent_bus.Shared.{
  Bool, Bool-cases, Option, String, [], arith, false, if◌then◌else◌, inl, inr, none, refl, some,
  str_eq, true, ℕ, ◌||◌, ◌≡◌, ◌⊎◌, any, ◌∙◌,
}
use agent_bus.Session.{Clock, Event, Snapshot}
use agent_bus.Generation.{Done}
use agent_bus.Vocabulary.{EventType, agent_phase, type_eq}
use agent_bus.Session.Journal.{Line, StoreError}
use agent_bus.Session.Store.{Slot, append_event, safe_session_id, has}
use agent_bus.Queue.Events.Cases.{of_gate, of_handler}
use agent_bus.Queue.Phases.Lines.{GrowsByPhases, grows_same, journal_pickups-grows}
use agent_bus.Queue.Server.{enqueue_event}
use agent_bus.Queue.Phases.Elsewhere.{journal_pickups-elsewhere, picks_up}
use mathlib.Core.Path.{subst}
use agent_bus.Queue.Events.Apart.{
  Apart, end_orphan-Apart, journal_progress-Apart, missed_completion-Apart, put_slot-SameElsewhere,
  retire-Apart,
}

-- Of a session that the message does not name: its journal is only longer by the phases of a
-- delivery, and all of it is the same where the handler hands out no event that is picked up.
abbrev pub IsSpared : (Line → ℕ) → Clock → String → Handled → Slot → Slot → Type 0
IsSpared bytes c x o before after =
    GrowsByPhases bytes c x before after
    × (any (picks_up bytes c x) o.deliveries ≡ false → after ≡ before)

IsSpared-same :
    (bytes : Line → ℕ) (c : Clock) (x : String) (o : Handled) (s t : Slot)
    → t ≡ s
    → IsSpared bytes c x o s t
IsSpared-same bytes c x o s t e = (grows_same bytes c x s t e, λ k. e)

module _ (bytes : Line → ℕ) (c : Clock) (start : Site) where
  -- What a message leaves of the other sessions in the end.
  abbrev Spares : String → Handled → Type 0
  Spares id o =
      (x : String) → str_eq x id ≡ false → IsSpared bytes c x o (start.slots x) (o.site.slots x)

  spared :
      (id : String) (a : Answer) (site : Site)
      → Apart bytes c start id site
      → Spares id (answer_with a site)
  spared id a site h x k =
      IsSpared-same bytes c x (answer_with a site) (start.slots x) (site.slots x) (h x k)

  offer-Spares :
      (m : Message) (missed : Option Done) (a : Site)
      → Apart bytes c start m.event.id a
      → Spares m.event.id (offer bytes c m missed a)
  unfolding offer
  offer-Spares m missed a h x k = elim (Bool-cases (is_for_agent m)) [
    | inr e ↦ rw e (
        IsSpared-same bytes c x
          (record { answer = taken; redelivered = missed; deliveries = []; site = a })
          (start.slots x) (a.slots x) (h x k))
    | inl e ↦
        let (ds, server) = enqueue_event c.now m.event a.server in
        let next = record a { server = server } in
        let after = journal_pickups bytes c ds next in
        rw e (
          subst (λ s. GrowsByPhases bytes c x s (after.slots x)) (h x k)
              (journal_pickups-grows bytes c ds x next),
          λ none_picked. journal_pickups-elsewhere bytes c ds x next none_picked ∙ h x k,
        )
  ]

  forward-Spares :
      (m : Message) (missed : Option Done) (a : Site)
      → Apart bytes c start m.event.id a
      → Spares m.event.id (forward bytes c m missed a)
  unfolding forward
  forward-Spares m missed a h =
      let retired = retire bytes c m.event a in
      let recorded = journal_progress bytes c m.event retired in
      offer-Spares m missed (end_orphan bytes c m recorded) (
        end_orphan-Apart bytes c start m recorded (
          journal_progress-Apart bytes c start m.event retired
            (retire-Apart bytes c start m.event a h)))

  appended_then-Spares :
      (m : Message) (missed : Option Done) (a : Site) (r : (Snapshot × Slot) ⊎ StoreError)
      → Apart bytes c start m.event.id a
      → Spares m.event.id (appended_then bytes c m missed a r)
  appended_then-Spares m missed a (inl (snapshot, slot)) h =
      forward-Spares m missed (put_slot m.event.id slot a)
        (put_slot-SameElsewhere m.event.id slot a start h)
  appended_then-Spares m missed a (inr x) h = spared m.event.id append_failed a h

  append_and_forward-Spares :
      (m : Message) (r : Option Done × Site)
      → Apart bytes c start m.event.id r.1
      → Spares m.event.id (append_and_forward bytes c m r)
  unfolding append_and_forward
  append_and_forward-Spares m (missed, a) h = by_id (str_eq m.event.id "")
    where
      by_id :
          (b : Bool)
          → Spares m.event.id (
              if b
              then forward bytes c m missed a
              else appended_then bytes c m missed a
                  (append_event bytes c m.event none (a.slots m.event.id)))
      by_id true = forward-Spares m missed a h
      by_id false =
          appended_then-Spares m missed a (append_event bytes c m.event none (a.slots m.event.id)) h

  phase_then-Spares :
      (id : String) (a : Site) (r : (Snapshot × Slot) ⊎ StoreError)
      → Apart bytes c start id a
      → Spares id (phase_then bytes c id a r)
  phase_then-Spares id a (inl (snapshot, slot)) h =
      spared id phase_recorded (put_slot id slot a) (put_slot-SameElsewhere id slot a start h)
  phase_then-Spares id a (inr x) h = spared id raised a h

  report_phase-Spares :
      (e : Event) (a : Site) → Apart bytes c start e.id a → Spares e.id (report_phase bytes c e a)
  unfolding report_phase
  report_phase-Spares e a h = elim (Bool-cases (str_eq e.id "")) [
    | inl k ↦ rw k (spared e.id phase_recorded a h)
    | inr k ↦ rw k (
        phase_then-Spares e.id a (append_event bytes c (reported_phase c.now e) none (a.slots e.id))
          h)
  ]

module _ (bytes : Line → ℕ) (c : Clock) where
  -- The events that the handler lets begin a session: those of the gate, and an agent_phase, which
  -- does not get to it.
  abbrev pub may_begin : EventType → Bool
  may_begin t = creates_session t || type_eq t agent_phase

  -- Every other session is spared; and an event that may not begin a session changes nothing at all
  -- where the session that it names has no journal.
  abbrev pub IsContained : Message → Site → Handled → Type 0
  IsContained m before o =
      ((x : String)
        → str_eq x m.event.id ≡ false
        → IsSpared bytes c x o (before.slots x) (o.site.slots x))
      × (may_begin m.event.type ≡ false
          → str_eq m.event.id "" ≡ false
          → has bytes c (before.slots m.event.id) ≡ false
          → o.site ≡ before)

  admit-unknown :
      (m : Message) (site : Site)
      → creates_session m.event.type ≡ false
      → str_eq m.event.id "" ≡ false
      → has bytes c (site.slots m.event.id) ≡ false
      → (admit bytes c m site).site ≡ site
  unfolding admit
  admit-unknown m site t i h = elim (Bool-cases (safe_session_id m.event.id)) [
    | inl k ↦ rw i (rw t (rw k (rw h refl)))
    | inr k ↦ rw i (rw t (rw k refl))
  ]

  creates_none : (t : EventType) → may_begin t ≡ false → creates_session t ≡ false
  creates_none t h = ground arith

  -- Whatever a message from the browser is and however it is answered: to the journal of any session
  -- but the one that it names nothing is added but lines of the two phases that are journaled when a
  -- parked poll is handed a generate, and the files and the map of a session for which that does not
  -- happen stay as they are; and where the message names a session that has no journal and is neither
  -- a generate nor a steer nor an agent_phase, nothing changes at all, in the queue or in the store.
  pub handle_event-IsContained :
      (token : String) (m : Message) (site : Site)
      → IsContained m site (handle_event bytes c token (some m) site)
  handle_event-IsContained token m site =
      of_handler bytes c token m site (λ o. IsContained m site o)
        (λ a r. (spared bytes c site m.event.id a site (λ x k. refl), λ t i h. refl))
        (λ t. (
          of_gate bytes c m site (λ o. Spares bytes c site m.event.id o)
              (λ a r. spared bytes c site m.event.id a site (λ x k. refl))
              (append_and_forward-Spares bytes c site m (missed_completion bytes c m.event site)
                (missed_completion-Apart bytes c site m.event site (λ x k. refl))),
          λ b i h. admit-unknown m site (creates_none m.event.type b) i h,
        ))
        (λ t. (report_phase-Spares bytes c site m.event site (λ x k. refl), λ b i h. ground arith))
