-- ===== src/Queue/Posts/Journaled.antt =====
-- What a reply leaves in the journal (live-server.mjs, handlePollPost).
use agent_bus.Queue.Phases.{Site, put_appended}
use agent_bus.Shared.{
  Bool-cases, List, Option, String, [], ap, arith, eq_iff, false, inl, inr, none, refl, str_eq,
  true, value_or, ℕ, ◌++◌, ◌∷◌, ◌≡◌, Bool, if◌then◌else◌, some, ◌∙◌, not, or_else, sym, ◌&&◌, ◌⊎◌,
  All,
}
use agent_bus.Session.{Clock, Snapshot}
use agent_bus.Session.Journal.{Line, entry}
use agent_bus.Queue.Posts.{
  PollReply, Services, file_metadata, journal_type, reply_event, Response, flush_and_respond,
  is_over, replied, respond, unknown_reply,
}
use agent_bus.Queue.{Queued}
use agent_bus.Session.Store.{
  Slot, append_normalized, file_lines, new_entry, safe_session_id, JournalFile,
}
use mathlib.Core.Bool.{false≢true}
use agent_bus.Queue.Posts.Handler.{
  journal_reply, look_up, publish_reply, handle_poll_post, is_publish, reply_to_known, settle_with,
  retry_with, source_type,
}
use agent_bus.Vocabulary.{other, type_eq}
use mathlib.Core.Path.{subst}
use agent_bus.Queue.Posts.Quiet.{SameFiles, SameSite, look_up-SameSite}
use agent_bus.Queue.Server.{Server, acknowledge, release, flush_pending_polls}
use agent_bus.Queue.Posts.Cases.{of_branches}
use agent_bus.Queue.Phases.Lines.{
  GrowsByPhases, IsPhaseLine, append_event_lem, appended_lines, grows_same, journal_lines,
  journal_pickups-grows, put_slot_same,
}

-- The answer 200 of the last line of the handler.
abbrev is_replied : Response → Bool
is_replied replied = true
is_replied other_answer = false

module _ (bytes : Line → ℕ) (c : Clock) (v : Services) where
  abbrev lines_of : Slot → List Line
  lines_of s = journal_lines bytes c s

  -- The event of the queue that a reply acknowledges.
  abbrev pub acknowledged_by : PollReply → Site → Option Queued
  acknowledged_by m site = (acknowledge m.id (source_type bytes c v m site.server) site.server).0

  -- The line of a reply that acknowledges this event: an event of the type that stands for its own,
  -- with the paths of its file and the type of what it acknowledges.
  abbrev pub reply_line : PollReply → Option Queued → ℕ → Line
  reply_line m q n = entry (new_entry bytes c (reply_event m (file_metadata v m.file) q) n)

  -- The journal has this line behind what it had, and behind that at most the phases of an event that
  -- is handed out.
  abbrev pub IsRecorded : PollReply → Option Queued → Slot → Slot → Type 0
  IsRecorded m q before after =
      (n : ℕ) × (more : List Line) × (lines_of after
        ≡ (lines_of before ++ reply_line m q n ∷ []) ++ more)
      × All (IsPhaseLine bytes c m.id) more

  safe_id_not_empty : (id : String) → safe_session_id id ≡ true → str_eq id "" ≡ false
  unfolding safe_session_id
  safe_id_not_empty id h = elim (Bool-cases (str_eq id "")) [
    | inl e ↦ absurd (false≢true (subst (λ x. safe_session_id x ≡ true) ((eq_iff id "").0 e) h))
    | inr e ↦ e
  ]

  journal_type-known : (t : String) → type_eq (journal_type t) (other "") ≡ false
  unfolding journal_type
  journal_type-known t = ground arith

  journal_reply_lines :
      (m : PollReply) (q : Option Queued) (site : Site)
      → safe_session_id m.id ≡ true
      → (n : ℕ) × (lines_of ((journal_reply bytes c v m (file_metadata v m.file) q site).slots m.id)
          ≡ lines_of (site.slots m.id) ++ reply_line m q n ∷ [])
  unfolding journal_reply reply_event
  journal_reply_lines m q site h =
      let e = reply_event m (file_metadata v m.file) q in
      let s = site.slots m.id in
      let (n, lines) = appended_lines bytes c e s in
      (
        n,
        ap (λ r. lines_of ((put_appended m.id r site).slots m.id))
              (append_event_lem bytes c e s (safe_id_not_empty m.id h) (journal_type-known m.type)
                h)
            ∙ ap lines_of (put_slot_same bytes c m.id (append_normalized bytes c e s).1 site)
            ∙ lines,
      )

  -- No event is acknowledged, the session was over, and its journal has got the phases at most of an
  -- event that is handed out.
  abbrev WasOver : PollReply → Option Queued → Site → Site → Type 0
  WasOver m q before after =
      (q ≡ none)
      × ((s : Snapshot) × ((look_up bytes c v m.id before).0 ≡ some s) × (is_over (some s) ≡ true))
      × GrowsByPhases bytes c m.id (before.slots m.id) (after.slots m.id)

  flush_and_respond-grows :
      (answer : Response) (x : String) (site : Site)
      → GrowsByPhases bytes c x
          (site.slots x)
          ((flush_and_respond bytes c answer site).site.slots x)
  unfolding flush_and_respond
  flush_and_respond-grows answer x site =
      let (ds, server) = flush_pending_polls c.now site.server in
      journal_pickups-grows bytes c ds x (record site { server = server })

  publish_reply-over :
      (m : PollReply) (q : Option Queued) (site : Site)
      → safe_session_id m.id ≡ true
      → GrowsByPhases bytes c m.id
          (site.slots m.id)
          ((publish_reply bytes c v m q true site).site.slots m.id)
  unfolding publish_reply
  publish_reply-over m q site h =
      elim (Bool-cases (is_publish bytes c v m (file_metadata v m.file) && not (v.compiles m.id))) [
        | inl e ↦ rw e (grows_same bytes c m.id (site.slots m.id) (site.slots m.id) refl)
        | inr e ↦ rw e (rw (safe_id_not_empty m.id h) (flush_and_respond-grows replied m.id site))
      ]

  publish_reply-IsRecorded :
      (m : PollReply) (q : Option Queued) (site : Site)
      → safe_session_id m.id ≡ true
      → is_replied (publish_reply bytes c v m q false site).response ≡ true
      → IsRecorded m q (site.slots m.id) ((publish_reply bytes c v m q false site).site.slots m.id)
  unfolding publish_reply
  publish_reply-IsRecorded m q site h =
      elim (Bool-cases (is_publish bytes c v m (file_metadata v m.file) && not (v.compiles m.id))) [
        | inl e ↦ rw e (λ r. absurd (false≢true r))
        | inr e ↦ rw e (
            rw (safe_id_not_empty m.id h) (λ r.
              let next = journal_reply bytes c v m (file_metadata v m.file) q site in
              let (n, line) = journal_reply_lines m q site h in
              let (more, lines, all) = flush_and_respond-grows replied m.id next in
              (n, more, lines ∙ ap (λ ls. ls ++ more) line, all)))
      ]

  -- The reply is in the journal, or it acknowledges nothing and its session was over.
  abbrev pub IsSettledFor : PollReply → Option Queued → Site → Site → Type 0
  IsSettledFor m q before after =
      IsRecorded m q (before.slots m.id) (after.slots m.id) ⊎ WasOver m q before after

  abbrev pub IsSettled : PollReply → Site → Site → Type 0
  IsSettled m before after = IsSettledFor m (acknowledged_by m before) before after

  lines_same : (s t : Slot) → SameFiles s t → lines_of s ≡ lines_of t
  lines_same s t h =
      ap (λ (p : Option JournalFile). value_or (file_lines bytes (or_else p s.legacy_journal)) [])
        h.0
      ∙ ap
          (λ (l : Option JournalFile). value_or (file_lines bytes (or_else t.primary_journal l)) [])
          h.1

  reply_to_known-IsSettled :
      (m : PollReply) (before : Site) (r : Option Snapshot × Site)
      → safe_session_id m.id ≡ true
      → r.0 ≡ (look_up bytes c v m.id before).0
      → SameSite r.1 before
      → is_replied (reply_to_known bytes c v m r).response ≡ true
      → IsSettledFor m none before (reply_to_known bytes c v m r).site
  unfolding reply_to_known
  reply_to_known-IsSettled m before (none, site) h e k r = absurd (false≢true r)
  reply_to_known-IsSettled m before (some s, site) h e k r = by_end (is_over (some s)) refl r
    where
      same : lines_of (site.slots m.id) ≡ lines_of (before.slots m.id)
      same = lines_same (site.slots m.id) (before.slots m.id) (k.1 m.id)

      by_end :
          (over : Bool)
          → is_over (some s) ≡ over
          → is_replied (publish_reply bytes c v m none over site).response ≡ true
          → IsSettledFor m none before (publish_reply bytes c v m none over site).site
      by_end true x y =
          let (more, lines, all) = publish_reply-over m none site h in
          inr (refl, (s, sym e, x), (more, lines ∙ ap (λ ls. ls ++ more) same, all))
      by_end false x y =
          let (n, more, lines, all) = publish_reply-IsRecorded m none site h y in
          inl (n, more, lines ∙ ap (λ ls. (ls ++ reply_line m none n ∷ []) ++ more) same, all)

  settle_with-IsSettled :
      (m : PollReply) (r : Option Queued × Server) (site : Site)
      → safe_session_id m.id ≡ true
      → is_replied (settle_with bytes c v m r site).response ≡ true
      → IsSettledFor m r.0 site (settle_with bytes c v m r site).site
  unfolding settle_with
  settle_with-IsSettled m (some q, s) site h r =
      inl (publish_reply-IsRecorded m (some q) (record site { server = s }) h r)
  settle_with-IsSettled m (none, s) site h r = by_id (str_eq m.id "") r
    where
      by_id :
          (b : Bool)
          → is_replied
              (if b
                then respond unknown_reply site
                else reply_to_known bytes c v m (look_up bytes c v m.id site)).response
            ≡ true
          → IsSettledFor m none site
              (if b
                then respond unknown_reply site
                else reply_to_known bytes c v m (look_up bytes c v m.id site)).site
      by_id true x = absurd (false≢true x)
      by_id false x =
          reply_to_known-IsSettled m site (look_up bytes c v m.id site) h refl
            (look_up-SameSite bytes c v m.id site) x

  retry_not_replied :
      (r : Option Queued × Server) (site : Site)
      → is_replied (retry_with bytes c v r site).response ≡ false
  unfolding retry_with flush_and_respond
  retry_not_replied (none, s) site = refl
  retry_not_replied (some q, s) site = refl

  -- A reply with a safe id that is answered by the last line of the handler is in the journal of its
  -- session: behind what stood there is an entry of the event type and the file that it stands for,
  -- with the type of the event that it acknowledges, and behind that at most the phases that are
  -- journaled when a parked poll is handed a generate. The one exception is a reply that acknowledges
  -- no event of the queue and of whose session the store says that it was over: then only such phases
  -- are added.
  pub replied-IsSettled :
      (m : PollReply) (site : Site)
      → safe_session_id m.id ≡ true
      → (handle_poll_post bytes c v m site).response ≡ replied
      → IsSettled m site (handle_poll_post bytes c v m site).site
  unfolding flush_and_respond
  replied-IsSettled m site h e =
      let t = source_type bytes c v m site.server in
      of_branches bytes c v m site (λ o. is_replied o.response ≡ true → IsSettled m site o.site)
        (λ r. absurd (false≢true r)) (λ r. absurd (false≢true r)) (λ r. absurd (false≢true r))
        (λ r. absurd (false≢true (sym (retry_not_replied (release m.id t site.server) site) ∙ r)))
        (λ r. absurd (false≢true r))
        (settle_with-IsSettled m (acknowledge m.id t site.server) site h) (ap is_replied e)
