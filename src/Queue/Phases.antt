-- ===== src/Queue/Phases.antt =====
-- live-server.mjs: the server with the store, and the phases that it journals on its own account
-- (recordAgentPhase), those of a delivery among them.
pub mod Lines
pub mod Elsewhere
use agent_bus.Queue.Server.{Server, Delivery}
use agent_bus.Shared.{
  Bool, List, String, [], false, if◌then◌else◌, inl, inr, none, not, some, str_eq, ℕ, ◌&&◌, ◌∷◌,
  ◌⊎◌,
}
use agent_bus.Session.{Clock, Event, Snapshot}
use agent_bus.Vocabulary.{EventType, agent_phase, generate, type_eq}
use agent_bus.Session.Journal.{Line, StoreError}
use agent_bus.Queue.{Queued}
use agent_bus.Session.Store.{Slot, append_event}

-- The server and the files of every session.
pub record Site : Type 0 where
  pub server : Server
  pub slots : String → Slot

abbrev pub put_slot : String → Slot → Site → Site
put_slot id s site = record site { slots = λ x. if str_eq x id then s else site.slots x }

-- The store with what an append has made of a session; nothing where it was refused.
abbrev pub put_appended : String → (Snapshot × Slot) ⊎ StoreError → Site → Site
put_appended id (inl (snapshot, slot)) site = put_slot id slot site
put_appended id (inr e) site = site

-- An event that has a type and an id alone.
abbrev pub plain_event : EventType → String → Event
plain_event type id = record {
  type = type;
  id = id;
  token = none;
  page_url = none;
  count = none;
  screenshot_path = none;
  plan = none;
  waivers = none;
  phase = none;
  at = none;
  duration_ms = none;
  carbonize = false;
  file = none;
  source_file = none;
  preview_file = none;
  preview_mode = none;
  arrived_variants = none;
  expected_variants = none;
  variant = none;
  variant_id = none;
  visible_variant = none;
  url = none;
  error = none;
  revision = none;
  revision_domain = none;
  reason = none;
  owner = none;
  param_values = none;
  message = none;
  source_event_type = none;
}

-- recordAgentPhase without details
abbrev pub phase_event : ℕ → String → String → Event
phase_event now id phase = record (plain_event agent_phase id) { phase = some phase; at = some now }

-- Whether prepareGenerateEventForLease goes past its guard.
abbrev pub is_pickup : Queued → Bool
is_pickup q = type_eq q.event.type generate && not q.scaffold_attempted

module _ (bytes : Line → ℕ) (c : Clock) where
  -- An append that is refused leaves all as it is.
  unfoldable pub journal : String → Event → Site → Site
  unfolding append_event
  journal id e site = put_appended id (append_event bytes c e none (site.slots id)) site

  -- prepareGenerateEventForLease up to its `await`. Where the store refuses the first append, the
  -- exception ends it, and the second would be refused alike.
  unfoldable pub journal_pickup : Queued → Site → Site
  unfolding journal
  journal_pickup q site =
      let id = q.event.id in
      if is_pickup q
      then journal id (phase_event c.now id "scaffolding")
          (journal id (phase_event c.now id "picked_up") site)
      else site

  -- The same for each event that a flush has handed to a poll. The queue does not read the store, so
  -- that these stand behind the flush.
  unfoldable pub journal_pickups : List Delivery → Site → Site
  unfolding journal_pickup
  journal_pickups [] site = site
  journal_pickups (d ∷ ds) site = journal_pickups ds (journal_pickup d.entry site)
