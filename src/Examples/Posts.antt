-- ===== src/Examples/Posts.antt =====
-- Replies to a server with one event (live-server.mjs, handlePollPost).
use agent_bus.Queue.Phases.{Site}
use agent_bus.Queue.Sites.{IsSound}
use agent_bus.Queue.Posts.Journaled.{IsSettled}
use agent_bus.Queue.Posts.Sound.{handle_poll_post-IsSound}
use agent_bus.Queue.Posts.{
  PollReply, Services, file_metadata, find_pending, flush_and_respond, is_empty_steer, replied,
  reply_type,
}
use agent_bus.Queue.Posts.Quiet.{SameSite, is_refusal, refused_reply-SameSite}
use agent_bus.Queue.Server.{Server, acknowledge, release}
use agent_bus.Shared.{String, [], arith, false, none, refl, true, ◌∷◌, ◌≡◌}
use agent_bus.Examples.{clock}
use agent_bus.Examples.Stores.{fresh, line_bytes, line_bytes_positive}
use agent_bus.Session.Store.Processes.{fresh-IsCoherentWorld}
use agent_bus.Vocabulary.{generate}
use agent_bus.Queue.Posts.Handler.{
  handle_poll_post, is_publish, publish_reply, retry_reply, retry_with, settle_reply, settle_with,
  source_type,
}
use agent_bus.Queue.Replies.{infer_source_event_type}
use agent_bus.Session.Store.{is_id_char, safe_session_id}
use agent_bus.Examples.Queues.{queued}
use agent_bus.Queue.Posts.Journaled.{replied-IsSettled}

abbrev services : Services
services = record {
  is_deferred = λ id. false;
  is_valid_result = λ m. false;
  has_timed_out = λ id. false;
  is_below_cwd = λ file. true;
  read_manifest = λ file. none;
  compiles = λ id. true;
}

abbrev reply : String → String → PollReply
reply type id = record {
  type = type;
  id = id;
  source_event_type = none;
  file = none;
  message = none;
  carbonize = false;
}

abbrev waiting : Server
waiting = record {
  pending_events = queued 1 0 generate ∷ [];
  pending_polls = [];
  next_event_seq = 2;
}

abbrev pub site : Site
site = record { server = waiting; slots = λ id. fresh.slot }

unknown_refused :
    is_refusal (handle_poll_post line_bytes clock services (reply "retry" "ffff") site).response
    ≡ true
unfolding handle_poll_post retry_reply retry_with release
unknown_refused = refl

refused_reply-SameSite_example :
    SameSite (handle_poll_post line_bytes clock services (reply "retry" "ffff") site).site site
refused_reply-SameSite_example =
    refused_reply-SameSite line_bytes clock services (reply "retry" "ffff") site unknown_refused

pub site-IsSound : IsSound line_bytes line_bytes_positive clock site
site-IsSound = record {
  queue = record { distinct = (tt, tt); below = (omega arith, tt) };
  store = λ id. (fresh-IsCoherentWorld line_bytes line_bytes_positive clock id).views 1;
}

handle_poll_post-IsSound_example :
    IsSound line_bytes line_bytes_positive clock
      (handle_poll_post line_bytes clock services (reply "done" "a1b2c3d4") site).site
handle_poll_post-IsSound_example =
    handle_poll_post-IsSound line_bytes line_bytes_positive clock services (reply "done" "a1b2c3d4")
      site (refl, refl) site-IsSound

done_replied :
    (handle_poll_post line_bytes clock services (reply "done" "a1b2c3d4") site).response ≡ replied
unfolding handle_poll_post settle_reply settle_with acknowledge publish_reply source_type
    infer_source_event_type reply_type find_pending is_empty_steer file_metadata is_publish
    flush_and_respond
done_replied = refl

replied-IsSettled_example :
    IsSettled line_bytes clock services
      (reply "done" "a1b2c3d4")
      site
      (handle_poll_post line_bytes clock services (reply "done" "a1b2c3d4") site).site
replied-IsSettled_example =
    replied-IsSettled line_bytes clock services (reply "done" "a1b2c3d4") site
      (unfold safe_session_id is_id_char in refl) done_replied
