-- ===== src/Queue/Posts/Handler.antt =====
-- live-server.mjs, handlePollPost: the steps of the handler.
use agent_bus.Queue.Phases.{Site, put_appended, put_slot}
use agent_bus.Shared.{
  Bool, Option, String, false, if◌then◌else◌, inl, inr, none, not, or_else, some, str_eq, true, ℕ,
  ◌&&◌, ◌||◌, ◌⊎◌,
}
use agent_bus.Session.{Clock, Snapshot}
use agent_bus.Vocabulary.{EventType}
use agent_bus.Queue.Posts.{
  FileMeta, PollReply, Services, compile_failed, file_metadata, find_pending, flush_and_respond,
  invalid_manual_apply, is_empty_steer, is_over, known, manual_applied, released_event, replied,
  reply_event, reply_type, respond, stale_manual_apply, steer_done_requires_file_or_message,
  unknown_reply, unknown_retry, Outcome,
}
use agent_bus.Session.Journal.{Line, StoreError}
use agent_bus.Queue.{Queued}
use agent_bus.Queue.Server.{Server, acknowledge, release}
use agent_bus.Session.Store.{Slot, append_event, get_snapshot}
use agent_bus.Queue.Replies.{infer_source_event_type}
use agent_bus.Roll.{is_text}

module _ (bytes : Line → ℕ) (c : Clock) (v : Services) where
  unfoldable pub retry_with : Option Queued × Server → Site → Outcome
  unfolding flush_and_respond
  retry_with (none, s) site = respond unknown_retry site
  retry_with (some q, s) site =
      flush_and_respond bytes c released_event (record site { server = s })

  -- A retry gives the lease back.
  unfoldable pub retry_reply : PollReply → Option EventType → Site → Outcome
  unfolding release retry_with
  retry_reply m t site = retry_with (release m.id t site.server) site

  abbrev pub looked_up :
      String → (Option Snapshot × Slot) ⊎ StoreError → Site → Option Snapshot × Site
  looked_up id (inl (found, slot)) site = (known found, put_slot id slot site)
  looked_up id (inr e) site = (none, site)

  -- What the store says of the session of a reply that acknowledges no event.
  unfoldable pub look_up : String → Site → Option Snapshot × Site
  unfolding get_snapshot
  look_up id site = looked_up id (get_snapshot bytes c id true (site.slots id)) site

  -- The append of the reply to the journal; an error of the store is passed over.
  unfoldable pub journal_reply : PollReply → FileMeta → Option Queued → Site → Site
  unfolding append_event reply_event
  journal_reply m f for_event site =
      put_appended m.id (append_event bytes c (reply_event m f for_event) none (site.slots m.id))
        site

  -- Whether the compiler is asked about the variants.
  unfoldable pub is_publish : PollReply → FileMeta → Bool
  is_publish m f =
      is_text "svelte-component" f.preview_mode
      && not (str_eq m.id "")
      && (str_eq m.type "done" || str_eq m.type "")

  -- From the file of the reply to the answer; `over` is skipJournalReply.
  unfoldable pub publish_reply : PollReply → Option Queued → Bool → Site → Outcome
  unfolding file_metadata is_publish journal_reply flush_and_respond
  publish_reply m for_event over site =
      let f = file_metadata v m.file in
      if is_publish m f && not (v.compiles m.id)
      then respond compile_failed site
      else flush_and_respond bytes c replied
          (if str_eq m.id "" || over then site else journal_reply m f for_event site)

  -- With what the store says, where no event is acknowledged.
  unfoldable pub reply_to_known : PollReply → Option Snapshot × Site → Outcome
  unfolding publish_reply
  reply_to_known m (none, site) = respond unknown_reply site
  reply_to_known m (some snapshot, site) = publish_reply m none (is_over (some snapshot)) site

  unfoldable pub settle_with : PollReply → Option Queued × Server → Site → Outcome
  unfolding look_up publish_reply reply_to_known
  settle_with m (some q, s) site = publish_reply m (some q) false (record site { server = s })
  settle_with m (none, s) site =
      if str_eq m.id "" then respond unknown_reply site else reply_to_known m (look_up m.id site)

  -- From the acknowledgement on.
  unfoldable pub settle_reply : PollReply → Option EventType → Site → Outcome
  unfolding acknowledge settle_with
  settle_reply m t site = settle_with m (acknowledge m.id t site.server) site

  -- `msg.sourceEventType || inferSourceEventType(msg)`
  unfoldable pub source_type : PollReply → Server → Option EventType
  unfolding infer_source_event_type reply_type
  source_type m s =
      or_else m.source_event_type
        (infer_source_event_type c.now m.id (reply_type m.type) s.pending_events)

  -- handlePollPost
  unfoldable pub handle_poll_post : PollReply → Site → Outcome
  unfolding settle_reply retry_reply source_type find_pending is_empty_steer
  handle_poll_post m site =
      let t = source_type m site.server in
      if v.is_deferred m.id
      then if v.is_valid_result m
        then flush_and_respond bytes c manual_applied
            (record site { server = (acknowledge m.id none site.server).1 })
        else respond invalid_manual_apply site
      else if v.has_timed_out m.id
      then respond stale_manual_apply site
      else if str_eq m.type "retry"
      then retry_reply m t site
      else if is_empty_steer m (find_pending m.id t site.server)
      then respond steer_done_requires_file_or_message site
      else settle_reply m t site
