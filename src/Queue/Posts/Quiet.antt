-- ===== src/Queue/Posts/Quiet.antt =====
-- A reply that is refused leaves no trace (live-server.mjs, handlePollPost).
use agent_bus.Queue.Phases.{Site, put_slot}
use agent_bus.Shared.{
  Bool, Bool-cases, Option, String, eq_iff, false, inl, inr, none, not, refl, some, str_eq, sym,
  true, ℕ, ◌&&◌, ◌≡◌, if◌then◌else◌,
}
use agent_bus.Session.{Clock, Snapshot}
use agent_bus.Session.Journal.{Line}
use agent_bus.Queue.Posts.{
  PollReply, Response, Services, compile_failed, file_metadata, flush_and_respond, is_over,
  manual_applied, released_event, replied, Outcome, respond, unknown_reply,
}
use agent_bus.Queue.{Queued}
use agent_bus.Queue.Server.{Server, acknowledge, release}
use agent_bus.Session.Store.{Slot, get_snapshot, read_snapshot, read_state, safe_session_id}
use mathlib.Core.Bool.{false≢true}
use agent_bus.Queue.Posts.Handler.{
  handle_poll_post, is_publish, look_up, publish_reply, reply_to_known, retry_with, settle_with,
  source_type,
}
use mathlib.Core.Path.{subst}
use agent_bus.Queue.Posts.Cases.{of_branches}

-- The answers with the status 400, 404 or 409.
abbrev pub is_refusal : Response → Bool
is_refusal manual_applied = false
is_refusal released_event = false
is_refusal compile_failed = false
is_refusal replied = false
is_refusal other_answer = true

-- The files of a session; the map of the process may differ.
abbrev pub SameFiles : Slot → Slot → Type 0
SameFiles s t =
    (s.primary_journal ≡ t.primary_journal)
    × (s.legacy_journal ≡ t.legacy_journal)
    × (s.snapshot_file ≡ t.snapshot_file)

abbrev pub SameSite : Site → Site → Type 0
SameSite a b = (a.server ≡ b.server) × ((id : String) → SameFiles (a.slots id) (b.slots id))

abbrev IsQuiet : Site → Outcome → Type 0
IsQuiet site o = is_refusal o.response ≡ true → SameSite o.site site

put_slot-SameSite :
    (id : String) (s : Slot) (site : Site)
    → SameFiles s (site.slots id)
    → SameSite (put_slot id s site) site
put_slot-SameSite id s site h = (
  refl,
  λ x. elim (Bool-cases (str_eq x id)) [
    | inl e ↦ rw e (subst (λ y. SameFiles s (site.slots y)) (sym ((eq_iff x id).0 e)) h)
    | inr e ↦ rw e (refl, refl, refl)
  ],
)

module _ (bytes : Line → ℕ) (c : Clock) (v : Services) where
  pub look_up-SameSite : (id : String) (site : Site) → SameSite (look_up bytes c v id site).1 site
  unfolding look_up get_snapshot read_snapshot read_state
  look_up-SameSite id site = elim (Bool-cases (str_eq id "")) [
    | inl e ↦ rw e (refl, λ x. (refl, refl, refl))
    | inr e ↦ elim (Bool-cases (safe_session_id id)) [
      | inl k ↦ rw e (
          rw k (
            put_slot-SameSite id (read_snapshot bytes c id true (site.slots id)).1 site
              (refl, refl, refl)))
      | inr k ↦ rw e (rw k (refl, λ x. (refl, refl, refl)))
    ]
  ]

  publish_reply-IsQuiet :
      (m : PollReply) (q : Option Queued) (over : Bool) (site next : Site)
      → IsQuiet site (publish_reply bytes c v m q over next)
  unfolding publish_reply flush_and_respond
  publish_reply-IsQuiet m q over site next =
      elim (Bool-cases (is_publish bytes c v m (file_metadata v m.file) && not (v.compiles m.id))) [
        | inl e ↦ rw e (λ h. absurd (false≢true h))
        | inr e ↦ rw e (λ h. absurd (false≢true h))
      ]

  reply_to_known-IsQuiet :
      (m : PollReply) (site : Site) (r : Option Snapshot × Site)
      → SameSite r.1 site
      → IsQuiet site (reply_to_known bytes c v m r)
  unfolding reply_to_known
  reply_to_known-IsQuiet m site (none, next) h = λ k. h
  reply_to_known-IsQuiet m site (some s, next) h =
      publish_reply-IsQuiet m none (is_over (some s)) site next

  settle_with-IsQuiet :
      (m : PollReply) (site : Site) (r : Option Queued × Server)
      → IsQuiet site (settle_with bytes c v m r site)
  unfolding settle_with
  settle_with-IsQuiet m site (some q, s) =
      publish_reply-IsQuiet m (some q) false site (record site { server = s })
  settle_with-IsQuiet m site (none, s) = by_id (str_eq m.id "")
    where
      by_id :
          (b : Bool)
          → IsQuiet site (
              if b
              then respond unknown_reply site
              else reply_to_known bytes c v m (look_up bytes c v m.id site))
      by_id true = λ h. (refl, λ x. (refl, refl, refl))
      by_id false =
          reply_to_known-IsQuiet m site (look_up bytes c v m.id site) (look_up-SameSite m.id site)

  retry_with-IsQuiet :
      (site : Site) (r : Option Queued × Server) → IsQuiet site (retry_with bytes c v r site)
  unfolding retry_with flush_and_respond
  retry_with-IsQuiet site (none, s) = λ h. (refl, λ x. (refl, refl, refl))
  retry_with-IsQuiet site (some q, s) = λ h. absurd (false≢true h)

  -- A reply that is refused with the status 400, 404 or 409 changes neither the queue nor the parked
  -- polls nor any file of any session.
  pub refused_reply-SameSite :
      (m : PollReply) (site : Site)
      → is_refusal (handle_poll_post bytes c v m site).response ≡ true
      → SameSite (handle_poll_post bytes c v m site).site site
  unfolding flush_and_respond
  refused_reply-SameSite m site =
      let t = source_type bytes c v m site.server in
      of_branches bytes c v m site (IsQuiet site) (λ h. absurd (false≢true h))
        (λ h. (refl, λ x. (refl, refl, refl))) (λ h. (refl, λ x. (refl, refl, refl)))
        (retry_with-IsQuiet site (release m.id t site.server))
        (λ h. (refl, λ x. (refl, refl, refl)))
        (settle_with-IsQuiet m site (acknowledge m.id t site.server))
