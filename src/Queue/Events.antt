-- ===== src/Queue/Events.antt =====
-- live-server.mjs, POST /events: a message from the browser, on the queue of events and on the
-- session store. Of what the handler broadcasts only the `done` is kept, and the cleanup of Svelte
-- components on an exit is left out.
pub mod Cases
pub mod Sound
pub mod Apart
pub mod Contained
pub mod Begun
pub mod Waiting
use agent_bus.Queue.Phases.{Site, journal, journal_pickups, plain_event, put_appended, put_slot}
use agent_bus.Shared.{
  Bool, List, Num, Option, String, Value, [], bool, false, if◌then◌else◌, inl, inr, none, not, num,
  some, str_eq, true, value_or, ℕ, ◌&&◌, ◌||◌, ◌∷◌, ◌⊎◌,
}
use agent_bus.Session.{Clock, Event, Snapshot}
use agent_bus.Queue.Server.{Delivery, enqueue_event, retire_generation}
use agent_bus.Generation.{
  Done, claims_behind, detect_missed_generation_completion, record_generation_checkpoint,
}
use agent_bus.Vocabulary.{
  EventType, accept, agent_phase, checkpoint, discard, discarded, generate, manual_edit_apply,
  manual_edits, steer, type_eq, variant_mounted,
}
use agent_bus.Session.Journal.{Line, StoreError}
use agent_bus.Session.Store.{Slot, append_event, get_snapshot, safe_session_id, has}
use agent_bus.Validation.{Verdict, accepted, get, is_finite, throws}
use agent_bus.Roll.{is_text}
use agent_bus.Validation.Messages.{validate_event}

-- A message that parses to an object: its value, and its fields as the store and the queue read them.
pub record Message : Type 0 where
  pub value : Value
  pub event : Event

-- The answers of the handler. `raised` is an exception that nothing catches: there is no answer.
pub data Answer : Type 0 where
  invalid_json unauthorized manual_edits_refused manual_apply_refused : Answer
  invalid_event : Verdict → Answer
  phase_recorded : Answer
  unknown_session append_failed taken raised : Answer

unfoldable pub answer_status : Answer → Option ℕ
answer_status invalid_json = some 400
answer_status unauthorized = some 401
answer_status manual_edits_refused = some 400
answer_status manual_apply_refused = some 400
answer_status (invalid_event v) = some 400
answer_status phase_recorded = some 200
answer_status unknown_session = some 404
answer_status append_failed = some 500
answer_status taken = some 200
answer_status raised = none

-- The answer, the `done` that is broadcast again, the events that parked polls get, and the state.
pub record Handled : Type 0 where
  pub answer : Answer
  pub redelivered : Option Done
  pub deliveries : List Delivery
  pub site : Site

abbrev pub answer_with : Answer → Site → Handled
answer_with a site = record { answer = a; redelivered = none; deliveries = []; site = site }

-- SESSION_CREATING_EVENT_TYPES
abbrev pub creates_session : EventType → Bool
creates_session t = type_eq t generate || type_eq t steer

-- `msg.orphaned === true`
abbrev pub is_true : Option Value → Bool
is_true (some (bool b)) = b
is_true _ = false

unfoldable pub is_orphaned_discard : Message → Bool
unfolding get
is_orphaned_discard m = type_eq m.event.type discard && is_true (get "orphaned" m.value)

-- Whether the event goes to the agent.
unfoldable pub is_for_agent : Message → Bool
unfolding is_orphaned_discard
is_for_agent m =
    not (type_eq m.event.type checkpoint)
    && not (type_eq m.event.type variant_mounted)
    && not (is_orphaned_discard m)

abbrev pub finite_number : Option Num → Option Num
finite_number none = none
finite_number (some n) = if is_finite (some (num n)) then some n else none

-- The event of recordAgentPhase, for a message of the browser.
abbrev pub reported_phase : ℕ → Event → Event
reported_phase now e = record (plain_event agent_phase e.id) {
  phase = e.phase;
  at = some now;
  duration_ms = finite_number e.duration_ms;
  owner = e.owner;
}

-- The same for a phase of recordGenerationCheckpoint; the store does not read `checkpointReason`.
abbrev pub reached_phase : ℕ → Event → String → Event
reached_phase now e phase = record (plain_event agent_phase e.id) {
  phase = some phase;
  at = some now;
  arrived_variants = some (value_or e.arrived_variants 0);
  expected_variants = some (value_or e.expected_variants 0);
}

module _ (bytes : Line → ℕ) (c : Clock) where
  abbrev pub found_in :
      String → (Option Snapshot × Slot) ⊎ StoreError → Site → Option Snapshot × Site
  found_in id (inl (found, slot)) site = (found, put_slot id slot site)
  found_in id (inr e) site = (none, site)

  -- getSnapshot, with `none` for an error
  unfoldable pub read_session : String → Bool → Site → Option Snapshot × Site
  unfolding get_snapshot
  read_session id include_completed site =
      found_in id (get_snapshot bytes c id include_completed (site.slots id)) site

  -- detectMissedGenerationCompletion
  unfoldable pub missed_completion : Event → Site → Option Done × Site
  unfolding claims_behind read_session detect_missed_generation_completion
  missed_completion e site =
      let (found, next) = read_session e.id false site in
      if claims_behind e then (detect_missed_generation_completion e found, next) else (none, site)

  abbrev pub journal_phases : Event → List String → Site → Site
  journal_phases e [] site = site
  journal_phases e (p ∷ ps) site =
      journal_phases e ps (journal bytes c e.id (reached_phase c.now e p) site)

  -- recordGenerationCheckpoint. The handler gets here with an id that an append has taken, so that
  -- none of these is refused.
  unfoldable pub journal_progress : Event → Site → Site
  unfolding journal read_session record_generation_checkpoint
  journal_progress e site =
      let (found, next) = read_session e.id true site in
      if str_eq e.id "" || not (type_eq e.type checkpoint)
      then site
      else journal_phases e (record_generation_checkpoint e found) next

  unfoldable pub retire : Event → Site → Site
  unfolding retire_generation
  retire e site =
      if type_eq e.type accept || type_eq e.type discard
      then record site { server = retire_generation e.id site.server }
      else site

  -- The end of a session whose wrapper is gone.
  unfoldable pub end_orphan : Message → Site → Site
  unfolding is_orphaned_discard journal
  end_orphan m site =
      if is_orphaned_discard m && not (str_eq m.event.id "")
      then journal bytes c m.event.id (plain_event discarded m.event.id) site
      else site

  unfoldable pub offer : Message → Option Done → Site → Handled
  unfolding is_for_agent enqueue_event journal_pickups
  offer m missed site =
      let (ds, server) = enqueue_event c.now m.event site.server in
      if is_for_agent m
      then record {
        answer = taken;
        redelivered = missed;
        deliveries = ds;
        site = journal_pickups bytes c ds (record site { server = server });
      }
      else record { answer = taken; redelivered = missed; deliveries = []; site = site }

  -- What follows the append.
  unfoldable pub forward : Message → Option Done → Site → Handled
  unfolding retire journal_progress end_orphan offer
  forward m missed site =
      offer m missed (end_orphan m (journal_progress m.event (retire m.event site)))

  abbrev pub appended_then : Message → Option Done → Site → (Snapshot × Slot) ⊎ StoreError → Handled
  appended_then m missed site (inl (snapshot, slot)) =
      forward m missed (put_slot m.event.id slot site)
  appended_then m missed site (inr x) = answer_with append_failed site

  unfoldable pub append_and_forward : Message → Option Done × Site → Handled
  unfolding append_event forward
  append_and_forward m (missed, site) =
      if str_eq m.event.id ""
      then forward m missed site
      else appended_then m missed site (append_event bytes c m.event none (site.slots m.event.id))

  -- The gate: only an event that starts a session may create its journal. `has` raises on an id that
  -- is no session id.
  unfoldable pub admit : Message → Site → Handled
  unfolding missed_completion append_and_forward safe_session_id has
  admit m site =
      let e = m.event in
      if str_eq e.id "" || creates_session e.type
      then append_and_forward m (missed_completion e site)
      else if not (safe_session_id e.id)
      then answer_with raised site
      else if has bytes c (site.slots e.id)
      then append_and_forward m (missed_completion e site)
      else answer_with unknown_session site

  abbrev pub phase_then : String → Site → (Snapshot × Slot) ⊎ StoreError → Handled
  phase_then id site (inl (snapshot, slot)) = answer_with phase_recorded (put_slot id slot site)
  phase_then id site (inr x) = answer_with raised site

  -- An agent_phase: recordAgentPhase, and nothing else.
  unfoldable pub report_phase : Event → Site → Handled
  unfolding append_event
  report_phase e site =
      if str_eq e.id ""
      then answer_with phase_recorded site
      else phase_then e.id site
          (append_event bytes c (reported_phase c.now e) none (site.slots e.id))

  abbrev pub by_verdict : Verdict → Message → Site → Handled
  by_verdict accepted m site =
      if type_eq m.event.type agent_phase then report_phase m.event site else admit m site
  by_verdict throws m site = answer_with raised site
  by_verdict v m site = answer_with (invalid_event v) site

  -- The handler, for the token of the server; `none` is a body that does not parse.
  unfoldable pub handle_event : String → Option Message → Site → Handled
  unfolding validate_event report_phase admit
  handle_event token none site = answer_with invalid_json site
  handle_event token (some m) site =
      if not (is_text token m.event.token)
      then answer_with unauthorized site
      else if type_eq m.event.type manual_edits
      then answer_with manual_edits_refused site
      else if type_eq m.event.type manual_edit_apply
      then answer_with manual_apply_refused site
      else by_verdict (validate_event m.value) m site
