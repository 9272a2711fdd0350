-- ===== src/Queue/Posts/Sound.antt =====
-- The handler of replies keeps the invariants of the queue and of the store (live-server.mjs,
-- handlePollPost).
use agent_bus.Queue.Phases.{Site}
use agent_bus.Queue.Sites.{
  IsSound, append_event-IsSound, put_slot-IsSound, with_server-IsSound, journal_pickups-IsSound,
}
use agent_bus.Shared.{
  Bool, Bool-cases, Option, String, false, if◌then◌else◌, inl, inr, length, none, not, refl, some,
  str_eq, true, ℕ, ◌&&◌, ◌||◌, ◌≤◌,
}
use agent_bus.Session.{Clock, Snapshot}
use agent_bus.Queue.Posts.{
  FileMeta, PollReply, Response, Services, file_metadata, flush_and_respond, is_over,
  manual_applied, released_event, replied, reply_event, respond, unknown_reply,
}
use agent_bus.Session.Store.Writes.{IsDated}
use agent_bus.Queue.Distinct.{IsQueue, acknowledge-IsQueue, flush_rounds-IsQueue, release-IsQueue}
use agent_bus.Session.Journal.{Line}
use agent_bus.Queue.{Queued}
use agent_bus.Queue.Server.{Server, acknowledge, flush_pending_polls, release}
use agent_bus.Session.Store.{get_snapshot, read_snapshot, read_state, safe_session_id}
use agent_bus.Queue.Posts.Handler.{
  handle_poll_post, is_publish, journal_reply, look_up, publish_reply, reply_to_known, retry_with,
  settle_with, source_type,
}
use agent_bus.Session.Store.Reads.{read_state-IsCoherent}
use agent_bus.Queue.Posts.Cases.{of_branches}
use agent_bus.Queue.Sites.{
  IsSound, append_event-IsSound, put_slot-IsSound, with_server-IsSound, journal_pickups-IsSound,
}

module _ (bytes : Line → ℕ) (bytes_positive : (l : Line) → 1 ≤ bytes l) (c : Clock)
    (v : Services) where
  abbrev Intact : Site → Type 0
  Intact site = IsSound bytes bytes_positive c site

  flush_and_respond-IsSound :
      (answer : Response) (site : Site)
      → IsDated bytes bytes_positive c
      → Intact site
      → Intact (flush_and_respond bytes c answer site).site
  unfolding flush_and_respond flush_pending_polls
  flush_and_respond-IsSound answer site d h =
      let (ds, server) = flush_pending_polls c.now site.server in
      journal_pickups-IsSound bytes bytes_positive c ds (record site { server = server }) d
        (record {
          queue = flush_rounds-IsQueue (length site.server.pending_polls) c.now site.server h.queue;
          store = h.store;
        })

  look_up-IsSound : (id : String) (site : Site) → Intact site → Intact (look_up bytes c v id site).1
  unfolding look_up get_snapshot read_snapshot
  look_up-IsSound id site h = elim (Bool-cases (str_eq id "")) [
    | inl e ↦ rw e h
    | inr e ↦ elim (Bool-cases (safe_session_id id)) [
      | inl k ↦ rw e (
          rw k (
            put_slot-IsSound bytes bytes_positive c id
              (read_state bytes c id true (site.slots id)).1 site
              (read_state-IsCoherent bytes bytes_positive c id true (site.slots id) (h.store id))
              h))
      | inr k ↦ rw e (rw k h)
    ]
  ]

  journal_reply-IsSound :
      (m : PollReply) (f : FileMeta) (q : Option Queued) (site : Site)
      → IsDated bytes bytes_positive c
      → Intact site
      → Intact (journal_reply bytes c v m f q site)
  unfolding journal_reply reply_event
  journal_reply-IsSound m f q site d h =
      append_event-IsSound bytes bytes_positive c m.id (reply_event m f q) site refl d h

  publish_reply-IsSound :
      (m : PollReply) (q : Option Queued) (over : Bool) (site : Site)
      → IsDated bytes bytes_positive c
      → Intact site
      → Intact (publish_reply bytes c v m q over site).site
  unfolding publish_reply
  publish_reply-IsSound m q over site d h =
      elim (Bool-cases (is_publish bytes c v m (file_metadata v m.file) && not (v.compiles m.id))) [
        | inl e ↦ rw e h
        | inr e ↦ rw e (
            flush_and_respond-IsSound replied
              (if str_eq m.id "" || over
                then site
                else journal_reply bytes c v m (file_metadata v m.file) q site)
              d (by_test (str_eq m.id "" || over)))
      ]
    where
      by_test :
          (b : Bool)
          → Intact (if b then site else journal_reply bytes c v m (file_metadata v m.file) q site)
      by_test true = h
      by_test false = journal_reply-IsSound m (file_metadata v m.file) q site d h

  reply_to_known-IsSound :
      (m : PollReply) (r : Option Snapshot × Site)
      → IsDated bytes bytes_positive c
      → Intact r.1
      → Intact (reply_to_known bytes c v m r).site
  unfolding reply_to_known
  reply_to_known-IsSound m (none, site) d h = h
  reply_to_known-IsSound m (some s, site) d h =
      publish_reply-IsSound m none (is_over (some s)) site d h

  settle_with-IsSound :
      (m : PollReply) (r : Option Queued × Server) (site : Site)
      → IsDated bytes bytes_positive c
      → IsQueue r.1
      → Intact site
      → Intact (settle_with bytes c v m r site).site
  unfolding settle_with
  settle_with-IsSound m (some q, s) site d k h =
      publish_reply-IsSound m (some q) false (record site { server = s }) d
        (with_server-IsSound bytes bytes_positive c site s k h)
  settle_with-IsSound m (none, s) site d k h = by_id (str_eq m.id "")
    where
      by_id :
          (b : Bool)
          → Intact
              (if b
                then respond unknown_reply site
                else reply_to_known bytes c v m (look_up bytes c v m.id site)).site
      by_id true = h
      by_id false =
          reply_to_known-IsSound m (look_up bytes c v m.id site) d (look_up-IsSound m.id site h)

  retry_with-IsSound :
      (r : Option Queued × Server) (site : Site)
      → IsDated bytes bytes_positive c
      → IsQueue r.1
      → Intact site
      → Intact (retry_with bytes c v r site).site
  unfolding retry_with
  retry_with-IsSound (none, s) site d k h = h
  retry_with-IsSound (some q, s) site d k h =
      flush_and_respond-IsSound released_event (record site { server = s }) d
        (with_server-IsSound bytes bytes_positive c site s k h)

  -- A reply, whatever it is and however it is answered, keeps the queue free of duplicates with fresh
  -- numbers, and the files and the map of every session coherent with its journal, when the time of
  -- the call is one that a date can be written for.
  pub handle_poll_post-IsSound :
      (m : PollReply) (site : Site)
      → IsDated bytes bytes_positive c
      → Intact site
      → Intact (handle_poll_post bytes c v m site).site
  handle_poll_post-IsSound m site d h =
      let t = source_type bytes c v m site.server in
      of_branches bytes c v m site (λ o. Intact o.site)
        (flush_and_respond-IsSound manual_applied
          (record site { server = (acknowledge m.id none site.server).1 }) d
          (with_server-IsSound bytes bytes_positive c site (acknowledge m.id none site.server).1
            (acknowledge-IsQueue m.id none site.server h.queue) h))
        h h
        (retry_with-IsSound (release m.id t site.server) site d
          (release-IsQueue m.id t site.server h.queue) h)
        h
        (settle_with-IsSound m (acknowledge m.id t site.server) site d
          (acknowledge-IsQueue m.id t site.server h.queue) h)
