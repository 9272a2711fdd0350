-- ===== src/Queue/Events/Sound.antt =====
-- The handler of messages keeps the invariants of the queue and of the store (live-server.mjs, POST
-- /events).
use agent_bus.Queue.Phases.{Site, journal, plain_event, put_appended, put_slot}
use agent_bus.Queue.Events.{
  Message, append_and_forward, appended_then, end_orphan, forward, handle_event, is_for_agent,
  is_orphaned_discard, journal_phases, journal_progress, missed_completion, offer, phase_then,
  reached_phase, read_session, report_phase, reported_phase, retire,
}
use agent_bus.Shared.{
  if◌then◌else◌, some, Bool, Bool-cases, List, Option, String, [], false, inl, inr, none, not, refl,
  str_eq, true, ℕ, ◌&&◌, ◌||◌, ◌∷◌, ◌≤◌, ◌⊎◌,
}
use agent_bus.Session.{Clock, Event, Snapshot}
use agent_bus.Generation.{Done, claims_behind, record_generation_checkpoint}
use agent_bus.Session.Store.Writes.{IsDated}
use agent_bus.Queue.Sites.{
  IsSound, append_event-IsSound, put_slot-IsSound, with_server-IsSound, journal-IsSound,
  journal_pickups-IsSound,
}
use agent_bus.Session.Journal.{Line, StoreError}
use agent_bus.Session.Store.{
  Slot, append_event, get_snapshot, read_snapshot, read_state, safe_session_id,
}
use agent_bus.Vocabulary.{accept, checkpoint, discard, discarded, type_eq}
use agent_bus.Queue.Server.{enqueue_event, retire_generation}
use agent_bus.Queue.Distinct.{enqueue_event-IsQueue, retire-IsQueue}
use agent_bus.Queue.Events.Cases.{of_gate, of_handler}
use agent_bus.Session.Store.Reads.{read_state-IsCoherent}

module _ (bytes : Line → ℕ) (bytes_positive : (l : Line) → 1 ≤ bytes l) (c : Clock) where
  abbrev Intact : Site → Type 0
  Intact site = IsSound bytes bytes_positive c site

  abbrev Clear : Type 0
  Clear = IsDated bytes bytes_positive c

  read_session-Intact :
      (id : String) (all : Bool) (site : Site)
      → Intact site
      → Intact (read_session bytes c id all site).1
  unfolding read_session get_snapshot read_snapshot
  read_session-Intact id all site h = elim (Bool-cases (str_eq id "")) [
    | inl e ↦ rw e h
    | inr e ↦ elim (Bool-cases (safe_session_id id)) [
      | inl k ↦ rw e (
          rw k (
            put_slot-IsSound bytes bytes_positive c id
              (read_state bytes c id true (site.slots id)).1 site
              (read_state-IsCoherent bytes bytes_positive c id true (site.slots id) (h.store id))
              h))
      | inr k ↦ rw e (rw k h)
    ]
  ]

  missed_completion-Intact :
      (e : Event) (site : Site) → Intact site → Intact (missed_completion bytes c e site).1
  unfolding missed_completion
  missed_completion-Intact e site h = elim (Bool-cases (claims_behind e)) [
    | inl k ↦ rw k (read_session-Intact e.id false site h)
    | inr k ↦ rw k h
  ]

  journal_phases-Intact :
      (e : Event) (ps : List String) (site : Site)
      → Clear
      → Intact site
      → Intact (journal_phases bytes c e ps site)
  journal_phases-Intact e [] site d h = h
  journal_phases-Intact e (p ∷ ps) site d h =
      journal_phases-Intact e ps (journal bytes c e.id (reached_phase c.now e p) site) d
        (journal-IsSound bytes bytes_positive c (reached_phase c.now e p) site d h)

  journal_progress-Intact :
      (e : Event) (site : Site) → Clear → Intact site → Intact (journal_progress bytes c e site)
  unfolding journal_progress
  journal_progress-Intact e site d h =
      elim (Bool-cases (str_eq e.id "" || not (type_eq e.type checkpoint))) [
        | inl k ↦ rw k h
        | inr k ↦ rw k (
            journal_phases-Intact e
              (record_generation_checkpoint e (read_session bytes c e.id true site).0)
              (read_session bytes c e.id true site).1 d (read_session-Intact e.id true site h))
      ]

  retire-Intact : (e : Event) (site : Site) → Intact site → Intact (retire bytes c e site)
  unfolding retire
  retire-Intact e site h = elim (Bool-cases (type_eq e.type accept || type_eq e.type discard)) [
    | inl k ↦ rw k (
        with_server-IsSound bytes bytes_positive c site (retire_generation e.id site.server)
          (retire-IsQueue e.id site.server h.queue) h)
    | inr k ↦ rw k h
  ]

  end_orphan-Intact :
      (m : Message) (site : Site) → Clear → Intact site → Intact (end_orphan bytes c m site)
  unfolding end_orphan
  end_orphan-Intact m site d h =
      elim (Bool-cases (is_orphaned_discard m && not (str_eq m.event.id ""))) [
        | inl k ↦
            rw k
              (journal-IsSound bytes bytes_positive c (plain_event discarded m.event.id) site d h)
        | inr k ↦ rw k h
      ]

  offer-Intact :
      (m : Message) (missed : Option Done) (site : Site)
      → Clear
      → Intact site
      → Intact (offer bytes c m missed site).site
  unfolding offer
  offer-Intact m missed site d h = elim (Bool-cases (is_for_agent m)) [
    | inr k ↦ rw k h
    | inl k ↦
        let (ds, server) = enqueue_event c.now m.event site.server in
        rw k (
          journal_pickups-IsSound bytes bytes_positive c ds (record site { server = server }) d
            (with_server-IsSound bytes bytes_positive c site server
              (enqueue_event-IsQueue c.now m.event site.server h.queue) h))
  ]

  forward-Intact :
      (m : Message) (missed : Option Done) (site : Site)
      → Clear
      → Intact site
      → Intact (forward bytes c m missed site).site
  unfolding forward
  forward-Intact m missed site d h =
      let retired = retire bytes c m.event site in
      let recorded = journal_progress bytes c m.event retired in
      offer-Intact m missed (end_orphan bytes c m recorded) d (
        end_orphan-Intact m recorded d
          (journal_progress-Intact m.event retired d (retire-Intact m.event site h)))

  -- From what an append leaves: nothing, or the slot of the session.
  appended_then-Intact :
      (m : Message) (missed : Option Done) (site : Site) (r : (Snapshot × Slot) ⊎ StoreError)
      → Clear
      → Intact site
      → Intact (put_appended m.event.id r site)
      → Intact (appended_then bytes c m missed site r).site
  appended_then-Intact m missed site (inl (snapshot, slot)) d h k =
      forward-Intact m missed (put_slot m.event.id slot site) d k
  appended_then-Intact m missed site (inr x) d h k = h

  append_and_forward-Intact :
      (m : Message) (r : Option Done × Site)
      → Clear
      → Intact r.1
      → Intact (append_and_forward bytes c m r).site
  unfolding append_and_forward
  append_and_forward-Intact m (missed, site) d h = by_id (str_eq m.event.id "")
    where
      by_id :
          (b : Bool)
          → Intact
              (if b
                then forward bytes c m missed site
                else appended_then bytes c m missed site
                    (append_event bytes c m.event none (site.slots m.event.id))).site
      by_id true = forward-Intact m missed site d h
      by_id false =
          appended_then-Intact m missed site
            (append_event bytes c m.event none (site.slots m.event.id)) d h
            (append_event-IsSound bytes bytes_positive c m.event.id m.event site refl d h)

  phase_then-Intact :
      (id : String) (site : Site) (r : (Snapshot × Slot) ⊎ StoreError)
      → Intact site
      → Intact (put_appended id r site)
      → Intact (phase_then bytes c id site r).site
  phase_then-Intact id site (inl (snapshot, slot)) h k = k
  phase_then-Intact id site (inr x) h k = h

  report_phase-Intact :
      (e : Event) (site : Site) → Clear → Intact site → Intact (report_phase bytes c e site).site
  unfolding report_phase
  report_phase-Intact e site d h = elim (Bool-cases (str_eq e.id "")) [
    | inl k ↦ rw k h
    | inr k ↦ rw k (
        phase_then-Intact e.id site
          (append_event bytes c (reported_phase c.now e) none (site.slots e.id)) h
          (append_event-IsSound bytes bytes_positive c e.id (reported_phase c.now e) site refl d h))
  ]

  -- A message from the browser, whatever it is and however it is answered, keeps the queue free of
  -- duplicates with fresh numbers, and the files and the map of every session coherent with its
  -- journal, when the time of the call is one that a date can be written for.
  pub handle_event-IsSound :
      (token : String) (body : Option Message) (site : Site)
      → IsDated bytes bytes_positive c
      → IsSound bytes bytes_positive c site
      → IsSound bytes bytes_positive c (handle_event bytes c token body site).site
  unfolding handle_event
  handle_event-IsSound token none site d h = h
  handle_event-IsSound token (some m) site d h =
      of_handler bytes c token m site (λ o. Intact o.site) (λ a r. h)
        (λ t.
          of_gate bytes c m site (λ o. Intact o.site) (λ a r. h)
            (append_and_forward-Intact m (missed_completion bytes c m.event site) d
              (missed_completion-Intact m.event site h)))
        (λ t. report_phase-Intact m.event site d h)
