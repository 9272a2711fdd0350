-- ===== src/Queue/Posts.antt =====
-- live-server.mjs, handlePollPost: the reply of an agent, on the queue and on the session store. It
-- stands behind the parsing of the body and the test of the token.
pub mod Handler
pub mod Cases
pub mod Quiet
pub mod Sound
pub mod Journaled
use agent_bus.Queue.Phases.{Site, journal_pickups}
use agent_bus.Shared.{
  Bool, List, Option, String, [], codes, ends_with, false, find, has_part, if◌then◌else◌, is_blank,
  none, not, some, str_eq, truthy, value_or, ℕ, ◌&&◌, ◌||◌, inl, inr, or_else, true, ◌⊎◌,
}
use agent_bus.Queue.Server.{Delivery, Server, flush_pending_polls, matches, acknowledge, release}
use agent_bus.Session.{Event, Snapshot, Clock}
use agent_bus.Vocabulary.{EventType, steer, steer_done, type_eq}
use agent_bus.Queue.{Queued}
use agent_bus.Queue.Replies.{
  ReplyType, complete_reply, discard_reply, discarded_reply, done_reply, error_reply, other_reply,
  steer_reply, infer_source_event_type,
}
use agent_bus.Session.Store.{Slot, append_event, get_snapshot}
use agent_bus.Roll.{is_text}
use agent_bus.Session.Handlers.{revision_domain}
use agent_bus.Session.Journal.{Line, StoreError}

-- The reply. The empty text stands for a missing id or type.
pub record PollReply : Type 0 where
  pub type : String
  pub id : String
  pub source_event_type : Option EventType
  pub file : Option String
  pub message : Option String
  pub carbonize : Bool

-- The answer of the handler; its status is that of writeHead.
pub data Response : Type 0 where
  invalid_manual_apply manual_applied stale_manual_apply : Response
  unknown_retry released_event : Response
  steer_done_requires_file_or_message unknown_reply compile_failed replied : Response

pub record FileMeta : Type 0 where
  pub file : Option String
  pub source_file : Option String
  pub preview_file : Option String
  pub preview_mode : Option String

-- A manifest of previews, as far as it is read.
pub record Manifest : Type 0 where
  pub preview_mode : Option String
  pub source_file : Option String

-- What the handler asks of the other modules: the deferred apply of manual edits (getDeferred,
-- validateResultMessage, hasTimedOutId), whether a path is below the working directory, the manifest
-- that a path holds, and the compiler of the variants of a session.
pub record Services : Type 0 where
  pub is_deferred : String → Bool
  pub is_valid_result : PollReply → Bool
  pub has_timed_out : String → Bool
  pub is_below_cwd : String → Bool
  pub read_manifest : String → Option Manifest
  pub compiles : String → Bool

pub record Outcome : Type 0 where
  pub response : Response
  pub deliveries : List Delivery
  pub site : Site

unfoldable pub status : Response → String → ℕ
status invalid_manual_apply id = 400
status manual_applied id = 200
status stale_manual_apply id = 409
status unknown_retry id = if str_eq id "" then 400 else 404
status released_event id = 200
status steer_done_requires_file_or_message id = 400
status unknown_reply id = if str_eq id "" then 400 else 404
status compile_failed id = 422
status replied id = 200

-- The types that inferSourceEventType tells apart.
unfoldable pub reply_type : String → ReplyType
reply_type t =
    if str_eq t "discarded"
    then discarded_reply
    else if str_eq t "discard"
    then discard_reply
    else if str_eq t "complete"
    then complete_reply
    else if str_eq t "steer_done"
    then steer_reply
    else if str_eq t "agent_done" || str_eq t "done"
    then done_reply
    else if str_eq t "error"
    then error_reply
    else other_reply t

-- Whether sessionFileMetadataFromPollReply takes a path for that of a manifest.
unfoldable pub is_manifest_path : String → Bool
is_manifest_path file =
    (ends_with (codes "/manifest.json") (codes file) || str_eq file "manifest.json")
    && (has_part ".impeccable/live/previews/" file
        || has_part "node_modules/.impeccable-live/" file
        || has_part "src/lib/impeccable/" file
        || has_part "/.impeccable-live/" file)

abbrev pub base_meta : Option String → FileMeta
base_meta file = record {
  file = file;
  source_file = none;
  preview_file = none;
  preview_mode = none;
}

abbrev pub manifest_meta : String → Option Manifest → FileMeta
manifest_meta file none = base_meta (some file)
manifest_meta file (some m) =
    if is_text "svelte-component" m.preview_mode && truthy m.source_file
    then record {
      file = m.source_file;
      source_file = m.source_file;
      preview_file = some file;
      preview_mode = m.preview_mode;
    }
    else base_meta (some file)

-- sessionFileMetadataFromPollReply, where `/` separates paths
unfoldable pub file_metadata : Services → Option String → FileMeta
unfolding is_manifest_path
file_metadata v none = base_meta none
file_metadata v (some file) =
    if str_eq file "" || (not (is_manifest_path file) || not (v.is_below_cwd file))
    then base_meta (some file)
    else manifest_meta file (v.read_manifest file)

-- `eventType`, of the journal
unfoldable pub journal_type : String → EventType
journal_type t =
    if str_eq t "steer_done"
    then steer_done
    else if str_eq t "discard" || str_eq t "discarded"
    then EventType.discarded
    else if str_eq t "complete"
    then EventType.complete
    else if str_eq t "error"
    then EventType.agent_error
    else EventType.agent_done

abbrev pub type_of : Option Queued → Option EventType
type_of none = none
type_of (some q) = some q.event.type

-- The event that is journaled.
unfoldable pub reply_event : PollReply → FileMeta → Option Queued → Event
unfolding journal_type
reply_event m f for_event = record {
  type = journal_type m.type;
  id = m.id;
  token = none;
  page_url = none;
  count = none;
  screenshot_path = none;
  plan = none;
  waivers = none;
  phase = none;
  at = none;
  duration_ms = none;
  carbonize = m.carbonize;
  file = f.file;
  source_file = f.source_file;
  preview_file = f.preview_file;
  preview_mode = f.preview_mode;
  arrived_variants = none;
  expected_variants = none;
  variant = none;
  variant_id = none;
  visible_variant = none;
  url = none;
  error = none;
  revision = none;
  revision_domain = none;
  reason = none;
  owner = none;
  param_values = none;
  message = m.message;
  source_event_type = type_of for_event;
}

-- findPendingEventById
unfoldable pub find_pending : String → Option EventType → Server → Option Queued
find_pending id t s = if str_eq id "" then none else find (matches id t) s.pending_events

-- A steer_done that names no file and says nothing.
unfoldable pub is_empty_steer : PollReply → Option Queued → Bool
is_empty_steer m none = false
is_empty_steer m (some q) =
    type_eq q.event.type steer
    && str_eq m.type "steer_done"
    && not (truthy m.file)
    && is_blank (value_or m.message "")

abbrev pub respond : Response → Site → Outcome
respond answer site = record { response = answer; deliveries = []; site = site }

-- flushPendingPolls, and the answer
unfoldable pub flush_and_respond : (Line → ℕ) → Clock → Response → Site → Outcome
unfolding flush_pending_polls journal_pickups
flush_and_respond bytes c answer site =
    let (ds, server) = flush_pending_polls c.now site.server in
    record {
      response = answer;
      deliveries = ds;
      site = journal_pickups bytes c ds (record site { server = server });
    }

-- The session that the reply is about, if the store knows it: `existingSession`.
abbrev pub known : Option Snapshot → Option Snapshot
known none = none
known (some s) = if truthy s.updated_at then some s else none

abbrev pub is_over : Option Snapshot → Bool
is_over none = false
is_over (some s) = str_eq s.phase "completed" || str_eq s.phase "discarded"
