-- ===== src/Completion.antt =====
-- live/completion.mjs, and completeAcceptHandling of live-poll.mjs: what a poll tells the server and
-- the agent when it has run the accept or the discard of an event by itself.
pub mod Agreement
use agent_bus.Queue.Phases.{Site}
use Prim.Native.String.{◌++◌ as join}
use agent_bus.Shared.{◌==◌, Bool, Option, String, false, if◌then◌else◌, none, some, true, ℕ, ◌&&◌}
use agent_bus.Session.{Clock, Event}
use agent_bus.Vocabulary.{EventType, accept, discard, type_eq}
use agent_bus.Session.Journal.{Line}
use agent_bus.Queue.Posts.{Services, status, PollReply, Response}
use agent_bus.Queue.Posts.Handler.{handle_poll_post}
use agent_bus.Roll.{is_text}

-- What the accept script answers. `handled` and `carbonize` are the tests `=== true`.
pub record AcceptResult : Type 0 where
  pub handled : Bool
  pub carbonize : Bool
  pub mode : Option String
  pub preview_mode : Option String
  pub error : Option String
  pub file : Option String

-- The acknowledgement; `final` is false where `requires_complete` is true, and absent elsewhere.
pub record Ack : Type 0 where
  pub ok : Bool
  pub type : String
  pub requires_complete : Bool
  pub next_command : Option String

-- completionTypeForAcceptResult
unfoldable pub completion_type : EventType → AcceptResult → String
completion_type t a =
    if type_eq t discard
    then (if a.handled then "discarded" else "error")
    else if a.handled && a.carbonize
    then "agent_done"
    else if a.handled
    then "complete"
    else if is_text "error" a.mode
    then "error"
    else if type_eq t accept && is_text "svelte-component" a.preview_mode
    then "error"
    else "agent_done"

-- completionAckForAcceptResult
unfoldable pub completion_ack : String → String → AcceptResult → Ack
completion_ack id type a =
    if a.handled && a.carbonize
    then record {
      ok = true;
      type = type;
      requires_complete = true;
      next_command = some (join "live-complete.mjs --id " id);
    }
    else record { ok = true; type = type; requires_complete = false; next_command = none }

-- The reply that completeAcceptHandling posts.
unfoldable pub completion_reply : Event → AcceptResult → PollReply
unfolding completion_type
completion_reply e a = record {
  type = completion_type e.type a;
  id = e.id;
  source_event_type = some e.type;
  file = a.file;
  message = a.error;
  carbonize = a.carbonize;
}

-- The acknowledgement of completeAcceptHandling: the error of a reply that is not taken, or that of
-- completionAckForAcceptResult.
unfoldable pub ack_of : Event → AcceptResult → Response → Ack
unfolding status completion_ack completion_type
ack_of e a answer =
    if status answer e.id == 200
    then completion_ack e.id (completion_type e.type a) a
    else record { ok = false; type = ""; requires_complete = false; next_command = none }

-- completeAcceptHandling
unfoldable pub complete_accept_handling :
    (Line → ℕ) → Clock → Services → Event → AcceptResult → Site → Ack × Site
unfolding handle_poll_post completion_reply ack_of
complete_accept_handling bytes c v e a site =
    let o = handle_poll_post bytes c v (completion_reply e a) site in
    (ack_of e a o.response, o.site)
