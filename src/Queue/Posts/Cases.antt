-- ===== src/Queue/Posts/Cases.antt =====
-- The branches of handlePollPost of live-server.mjs, for the proofs about all of them.
use agent_bus.Queue.Phases.{Site}
use agent_bus.Shared.{Bool-cases, Option, inl, inr, none, str_eq, ℕ}
use agent_bus.Session.{Clock}
use agent_bus.Vocabulary.{EventType}
use agent_bus.Session.Journal.{Line}
use agent_bus.Queue.Posts.{
  Outcome, PollReply, Services, find_pending, flush_and_respond, invalid_manual_apply,
  is_empty_steer, manual_applied, respond, stale_manual_apply, steer_done_requires_file_or_message,
}
use agent_bus.Queue.Server.{acknowledge, release}
use agent_bus.Queue.Posts.Handler.{
  handle_poll_post, retry_reply, retry_with, settle_reply, settle_with, source_type,
}

module _ (bytes : Line → ℕ) (c : Clock) (v : Services) (m : PollReply) (site : Site) where
  abbrev source : Option EventType
  source = source_type bytes c v m site.server

  -- What every branch has, the handler has.
  pub of_branches {κ} :
      (P : Outcome → Type κ)
      → P (
          flush_and_respond bytes c manual_applied
            (record site { server = (acknowledge m.id none site.server).1 }))
      → P (respond invalid_manual_apply site)
      → P (respond stale_manual_apply site)
      → P (retry_with bytes c v (release m.id source site.server) site)
      → P (respond steer_done_requires_file_or_message site)
      → P (settle_with bytes c v m (acknowledge m.id source site.server) site)
      → P (handle_poll_post bytes c v m site)
  unfolding handle_poll_post settle_reply retry_reply
  of_branches P applied invalid stale retried steered resolved =
      elim (Bool-cases (v.is_deferred m.id)) [
        | inl e ↦ elim (Bool-cases (v.is_valid_result m)) [
          | inl k ↦ rw e (rw k applied)
          | inr k ↦ rw e (rw k invalid)
        ]
        | inr e ↦ elim (Bool-cases (v.has_timed_out m.id)) [
          | inl k ↦ rw e (rw k stale)
          | inr k ↦ elim (Bool-cases (str_eq m.type "retry")) [
            | inl r ↦ rw e (rw k (rw r retried))
            | inr r ↦ elim (Bool-cases (is_empty_steer m (find_pending m.id source site.server))) [
              | inl x ↦ rw e (rw k (rw r (rw x steered)))
              | inr x ↦ rw e (rw k (rw r (rw x resolved)))
            ]
          ]
        ]
      ]
