-- ===== src/Session.antt =====
-- .opencode/skills/impeccable/scripts/live/session-store.mjs: the data of a live session. A field
-- of an object that may be `null` or absent is an `Option`.
pub mod Handlers
pub mod Apply
pub mod Journal
pub mod Store
use agent_bus.Shared.{ℕ, String, Bool, false, Option, none, List, [], Num, Value, Fields}
use agent_bus.Vocabulary.{EventType}

-- The fields of an event that the store reads. `waivers` is `none` where it is no array; `variant`
-- and `variant_id` are what `Number(...)` gives, and `variant_id` is validated to be digits.
pub record Event : Type 0 where
  pub type : EventType
  pub id : String
  pub token : Option String
  pub page_url : Option String
  pub count : Option ℕ
  pub screenshot_path : Option String
  pub plan : Option Value
  pub waivers : Option (List Value)
  pub phase : Option String
  pub at : Option ℕ
  pub duration_ms : Option Num
  pub carbonize : Bool
  pub file : Option String
  pub source_file : Option String
  pub preview_file : Option String
  pub preview_mode : Option String
  pub arrived_variants : Option ℕ
  pub expected_variants : Option ℕ
  pub variant : Option Num
  pub variant_id : Option ℕ
  pub visible_variant : Option ℕ
  pub url : Option String
  pub error : Option String
  pub revision : Option ℕ
  pub revision_domain : Option String
  pub reason : Option String
  pub owner : Option String
  pub param_values : Option Fields
  pub message : Option String
  pub source_event_type : Option EventType

-- A line of the journal, parsed. `own` is the entry read as an event itself, for the lines that
-- hold no `event`.
pub record Entry : Type 0 where
  pub seq : Option ℕ
  pub ts : Option String
  pub event : Option Event
  pub own : Event

pub data Domain : Type 0 where
  publication browser : Domain

pub data Diagnostic : Type 0 where
  late_generation_event_ignored : EventType → String → Diagnostic
  carbonize_cleanup_required : Option String → Diagnostic
  malformed_mount_ack : EventType → Option Num → Diagnostic
  checkpoint_after_terminal_ignored : Option String → Option ℕ → Diagnostic
  stale_checkpoint_ignored : Option ℕ → Domain → Diagnostic
  agent_error : String → Diagnostic
  unknown_event_type : EventType → Diagnostic
  journal_parse_failed : ℕ → String → Diagnostic

pub data RenderState : Type 0 where
  mounted failed pending : RenderState

pub record MountFailure : Type 0 where
  pub variant : ℕ
  pub url : Option String
  pub error : Option String
  pub at : ℕ

pub record Timing : Type 0 where
  pub at : Option ℕ
  pub duration_ms : Option Num

pub record Artifact : Type 0 where
  pub type : String
  pub path : String

pub record Snapshot : Type 0 where
  pub id : String
  pub phase : String
  pub page_url : Option String
  pub source_file : Option String
  pub preview_file : Option String
  pub preview_mode : Option String
  pub expected_variants : ℕ
  pub arrived_variants : ℕ
  pub visible_variant : Option ℕ
  pub param_values : Fields
  pub pending_event_seq : Option ℕ
  pub pending_event : Option Event
  pub delivery_lease : Option Value
  pub checkpoint_revision : ℕ
  pub browser_checkpoint_revision : ℕ
  pub publication_checkpoint_revision : ℕ
  pub active_owner : Option String
  pub source_markers : Fields
  pub fallback_mode : Option String
  pub generation_phase : Option String
  pub generation_completed_at : Option ℕ
  pub generation_timings : List (String × Timing)
  pub variant_plan : Option Value
  pub generation_canceled : Bool
  pub generation_canceled_at : Option ℕ
  pub cancel_reason : Option String
  pub annotation_artifacts : List Artifact
  pub mounted_variants : List ℕ
  pub mount_failures : List MountFailure
  pub render_state : Option RenderState
  pub diagnostics : List Diagnostic
  pub updated_at : Option String
  pub detector_waivers : List Value
  pub message : Option String

unfoldable pub base_snapshot : String → Snapshot
base_snapshot id = record {
  id = id;
  phase = "new";
  page_url = none;
  source_file = none;
  preview_file = none;
  preview_mode = none;
  expected_variants = 0;
  arrived_variants = 0;
  visible_variant = none;
  param_values = Fields.end;
  pending_event_seq = none;
  pending_event = none;
  delivery_lease = none;
  checkpoint_revision = 0;
  browser_checkpoint_revision = 0;
  publication_checkpoint_revision = 0;
  active_owner = none;
  source_markers = Fields.end;
  fallback_mode = none;
  generation_phase = none;
  generation_completed_at = none;
  generation_timings = [];
  variant_plan = none;
  generation_canceled = false;
  generation_canceled_at = none;
  cancel_reason = none;
  annotation_artifacts = [];
  mounted_variants = [];
  mount_failures = [];
  render_state = none;
  diagnostics = [];
  updated_at = none;
  detector_waivers = [];
  message = none;
}

-- What the store asks of the clock and of `Date`: the present time, its text, and `Date.parse`,
-- which is `none` for NaN.
pub record Clock : Type 0 where
  pub now : ℕ
  pub to_iso_string : ℕ → String
  pub parse_date : String → Option ℕ
