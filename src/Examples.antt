-- ===== src/Examples.antt =====
-- The theorems applied to concrete journals, messages and queues.
pub mod Sessions
pub mod Stores
pub mod Messages
pub mod Queues
pub mod Checkpoints
pub mod Edits
pub mod Locks
pub mod Pages
pub mod Rolls
pub mod Posts
pub mod Events
pub mod Injections
pub mod Completions
use agent_bus.Shared.{ℕ, String, Option, none, some, false, Value}
use agent_bus.Session.{Clock, Entry, Event}
use agent_bus.Vocabulary.{EventType}
use agent_bus.Session.Handlers.{revision_domain}

abbrev pub event_of : EventType → Event
event_of t = record {
  type = t;
  id = "a1b2c3d4";
  token = none;
  page_url = some "/";
  count = some 3;
  screenshot_path = none;
  plan = none;
  waivers = none;
  phase = none;
  at = some 7;
  duration_ms = none;
  carbonize = false;
  file = none;
  source_file = none;
  preview_file = none;
  preview_mode = none;
  arrived_variants = none;
  expected_variants = none;
  variant = none;
  variant_id = some 2;
  visible_variant = none;
  url = none;
  error = none;
  revision = some 4;
  revision_domain = none;
  reason = none;
  owner = none;
  param_values = none;
  message = none;
  source_event_type = none;
}

abbrev pub entry_of : ℕ → EventType → Entry
entry_of n t = record { seq = some n; ts = some "t"; event = some (event_of t); own = event_of t }

abbrev pub clock : Clock
clock = record { now = 9; to_iso_string = λ t. "t"; parse_date = λ s. some 9 }
