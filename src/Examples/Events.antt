-- ===== src/Examples/Events.antt =====
-- Messages to a server (live-server.mjs, POST /events).
use agent_bus.Queue.Events.{
  Message, handle_event, is_for_agent, is_orphaned_discard, taken, admit, append_and_forward,
  forward, offer,
}
use agent_bus.Queue.Events.Contained.{IsContained, handle_event-IsContained}
use agent_bus.Queue.Sites.{IsSound}
use agent_bus.Validation.{accepted, get, is_valid_id}
use agent_bus.Vocabulary.{agent_phase, steer}
use agent_bus.Queue.Events.Begun.{agent_phase_begins}
use agent_bus.Validation.Messages.{
  client_type, validate_agent_phase, validate_as, validate_event, validate_steer,
}
use agent_bus.Examples.{clock, event_of}
use agent_bus.Shared.{end, field, get_field, obj, refl, some, str, true, ◌≡◌, [], none, ◌∷◌}
use agent_bus.Queue.Events.Sound.{handle_event-IsSound}
use agent_bus.Session.Store.{has, is_id_char, safe_session_id, append_event}
use agent_bus.Queue.Events.Waiting.{is_waiting, taken-is_waiting}
use agent_bus.Examples.Stores.{line_bytes, line_bytes_positive}
use agent_bus.Examples.Posts.{site, site-IsSound}
use agent_bus.Session.Journal.{normalize_event}
use agent_bus.Queue.Phases.{Site}

abbrev phase_message : Message
phase_message = record {
  value = obj (
      field "type" (str "agent_phase")
        (field "id" (str "a1b2c3d4") (field "phase" (str "picked_up") end)));
  event = record (event_of agent_phase) { token = some "key"; phase = some "picked_up" };
}

abbrev steer_message : Message
steer_message = record {
  value = obj (
      field "type" (str "steer") (
        field "id" (str "a1b2c3d4")
          (field "message" (str "wider") (field "pageUrl" (str "/") end))));
  event = record (event_of steer) { token = some "key"; message = some "wider" };
}

steer_taken : (handle_event line_bytes clock "key" (some steer_message) site).answer ≡ taken
unfolding handle_event validate_event validate_as client_type get get_field validate_steer
    is_valid_id admit append_and_forward forward offer is_for_agent is_orphaned_discard append_event
    normalize_event safe_session_id is_id_char
steer_taken = refl

steer_for_agent : is_for_agent steer_message ≡ true
unfolding is_for_agent is_orphaned_discard
steer_for_agent = refl

phase_accepted : validate_event phase_message.value ≡ accepted
unfolding validate_event validate_as client_type get get_field validate_agent_phase is_valid_id
phase_accepted = refl

taken-is_waiting_example :
    is_waiting steer_message.event
      (handle_event line_bytes clock "key" (some steer_message) site).site.server
    ≡ true
taken-is_waiting_example =
    taken-is_waiting line_bytes clock "key" steer_message site steer_taken steer_for_agent

-- A poll is parked while the lease of a generate of another session runs out.
abbrev parked_site : Site
parked_site = record site {
  server = record site.server {
    pending_polls = record { number = 1; lease_ms = 30; types = none } ∷ [];
  };
}

abbrev other_message : Message
other_message = record steer_message { event = record steer_message.event { id = "b1b2c3d4" } }

handle_event-IsContained_example :
    IsContained line_bytes clock other_message parked_site
      (handle_event line_bytes clock "key" (some other_message) parked_site)
handle_event-IsContained_example =
    handle_event-IsContained line_bytes clock "key" other_message parked_site

handle_event-IsSound_example :
    IsSound line_bytes line_bytes_positive clock
      (handle_event line_bytes clock "key" (some steer_message) site).site
handle_event-IsSound_example =
    handle_event-IsSound line_bytes line_bytes_positive clock "key" (some steer_message) site
      (refl, refl) site-IsSound

agent_phase_begins_example :
    has line_bytes clock
      ((handle_event line_bytes clock "key" (some phase_message) site).site.slots "a1b2c3d4")
    ≡ true
agent_phase_begins_example =
    agent_phase_begins line_bytes clock "key" phase_message site refl refl phase_accepted refl
      (unfold safe_session_id is_id_char in refl)
