-- ===== src/Examples/Completions.antt =====
-- An accept whose cleanup is still to come (live/completion.mjs).
use agent_bus.Completion.{AcceptResult, completion_ack, completion_reply, completion_type}
use agent_bus.Session.{Entry, Snapshot, base_snapshot}
use agent_bus.Completion.Agreement.{IsAgreed, completion_ack-IsAgreed}
use agent_bus.Vocabulary.{accept}
use agent_bus.Session.Apply.{apply_event}
use agent_bus.Queue.Posts.{base_meta, reply_event}
use agent_bus.Examples.{clock, event_of}
use agent_bus.Shared.{inl, none, refl, some, true}

abbrev carbonized : AcceptResult
carbonized = record {
  handled = true;
  carbonize = true;
  mode = none;
  preview_mode = none;
  error = none;
  file = some "page.html";
}

abbrev accepted_session : Snapshot
accepted_session = record (base_snapshot "a1b2c3d4") { phase = "accept_requested" }

abbrev handoff : Entry
handoff = record {
  seq = some 2;
  ts = some "t";
  event = some (
      reply_event (completion_reply (event_of accept) carbonized) (base_meta carbonized.file) none);
  own = event_of accept;
}

completion_ack-IsAgreed_example :
    IsAgreed
      (completion_ack "a1b2c3d4" (completion_type accept carbonized) carbonized)
      (apply_event clock accepted_session handoff)
completion_ack-IsAgreed_example =
    completion_ack-IsAgreed clock (event_of accept) carbonized (base_meta carbonized.file) none
      accepted_session handoff (inl refl) (λ h. refl) refl refl
