-- ===== src/Queue/Leases.antt =====
-- An entry that a poll has claimed goes to no other poll before its lease is over, whatever happens
-- to the queue meanwhile, unless it is released (live-server.mjs, leaseEvent and releasePendingEvent).
use agent_bus.Queue.{Queued, select_available}
use agent_bus.Shared.{
  Bool, if◌then◌else◌, [], false, true, All, List, Option, some, ℕ, ◌+◌, ◌<◌, ◌≡◌, ◌≢◌, Bool-cases,
  Option-cases, String, [], ap, false, find, inl, inr, length, none, not, str_eq, sym, ◌&&◌, ◌++◌,
  ◌==◌, ◌∙◌, ◌∷◌, ◌≤◌,
}
use agent_bus.Vocabulary.{EventType, type_eq}
use agent_bus.Queue.Distinct.{
  IsQueue, Operation, perform_all, acked, enqueue, exits_canceled, flushed, perform, poll, released,
  remove_seq-take_first, retired, settled,
}
use mathlib.Core.List.{Memᴰ}
use agent_bus.Queue.Holding.{
  All-found, IsHeld, Leased, Leased-filter, Leased-set_lease, Leased-take_first, claim-Leased,
  flush_rounds-Leased, held_unavailable, push_event-Leased,
}
use agent_bus.Queue.Server.{
  Server, claim, acknowledge, cancel_anonymous_exits, enqueue_event, flush_pending_polls,
  has_duplicate, is_anonymous_exit, is_generation_of, matches, push_event, release,
  retire_generation, settle,
}
use agent_bus.Session.{Event}
use mathlib.Core.Bool.{false≢true}

module _ (q : Queued) (until : ℕ) where
  -- What an operation has to be: before the time is over if it hands out events; no release of the
  -- claimed event; and no end of the claim itself with an earlier lease.
  abbrev pub RespectsLease : Operation → Type 0
  RespectsLease (enqueue now e) = now < until
  RespectsLease (poll now p) = now < until
  RespectsLease (flushed now) = now < until
  RespectsLease (settled now ms x) = x.seq ≡ q.seq → until ≤ now + ms
  RespectsLease (released id t) = matches id t q ≡ false
  RespectsLease _ = Unit

  matches_event :
      (id : String) (t : Option EventType) (a b : Queued)
      → a.event ≡ b.event
      → matches id t a ≡ matches id t b
  matches_event id none a b e = ap (λ (x : Event). str_eq x.id id) e
  matches_event id (some u) a b e = ap (λ (x : Event). str_eq x.id id && type_eq x.type u) e

  enqueue_event-Leased :
      (now : ℕ) (e : Event) (s : Server)
      → now < until
      → Leased q until s
      → Leased q until (enqueue_event now e s).1
  unfolding enqueue_event flush_pending_polls
  enqueue_event-Leased now e s r h = by_test (has_duplicate e s.pending_events)
    where
      by_test :
          (b : Bool)
          → Leased q until (if b then ([], s) else flush_pending_polls now (push_event e s)).1
      by_test true = h
      by_test false =
          flush_rounds-Leased q until (length (push_event e s).pending_polls) now (push_event e s) r
            (push_event-Leased q until e s h)

  settle-Leased :
      (now ms : ℕ) (x : Queued) (s : Server)
      → (x.seq ≡ q.seq → until ≤ now + ms)
      → Leased q until s
      → Leased q until (settle now ms x s)
  unfolding settle
  settle-Leased now ms x s r h = elim (Bool-cases (str_eq x.event.id "")) [
    | inl e ↦ rw e (
        rw (remove_seq-take_first x.seq s.pending_events)
          (Leased-take_first q until (λ y. y.seq == x.seq) s h))
    | inr e ↦ rw e (record {
      entries = Leased-set_lease q until x.seq (now + ms) s.pending_events r h.entries;
      next = h.next;
    })
  ]

  acknowledge-Leased :
      (id : String) (t : Option EventType) (s : Server)
      → Leased q until s
      → Leased q until (acknowledge id t s).1
  unfolding acknowledge
  acknowledge-Leased id t s h = elim (Bool-cases (str_eq id "")) [
    | inl e ↦ rw e h
    | inr e ↦ elim (Option-cases (find (matches id t) s.pending_events)) [
      | inl f ↦ rw e (rw f h)
      | inr (x, f) ↦ rw e (rw f (Leased-take_first q until (matches id t) s h))
    ]
  ]

  release-Leased :
      (id : String) (t : Option EventType) (s : Server)
      → matches id t q ≡ false
      → Leased q until s
      → Leased q until (release id t s).1
  unfolding release
  release-Leased id t s r h = elim (Option-cases (find (matches id t) s.pending_events)) [
    | inl f ↦ rw (release, f) h
    | inr (x, f) ↦
        let (held, match) =
          All-found (IsHeld q until) (matches id t) x s.pending_events f h.entries in
        rw (release, f)
          (record {
            entries =
                Leased-set_lease q until x.seq 0 s.pending_events
                  (λ k.
                    absurd (false≢true (sym r ∙ matches_event id t q x (sym (held k).0) ∙ match)))
                  h.entries;
            next = h.next;
          })
  ]

  retire-Leased :
      (id : String) (s : Server) → Leased q until s → Leased q until (retire_generation id s)
  unfolding retire_generation
  retire-Leased id s h = elim (Bool-cases (str_eq id "")) [
    | inl e ↦ rw e h
    | inr e ↦ rw e (Leased-filter q until (λ x. not (is_generation_of id x)) s h)
  ]

  perform-Leased :
      (o : Operation) (s : Server)
      → RespectsLease o
      → Leased q until s
      → Leased q until (perform o s)
  unfolding perform flush_pending_polls cancel_anonymous_exits
  perform-Leased (enqueue now e) s r h = enqueue_event-Leased now e s r h
  perform-Leased (poll now p) s r h =
      flush_rounds-Leased q until (length (s.pending_polls ++ p ∷ [])) now
        (record s { pending_polls = s.pending_polls ++ p ∷ [] }) r
        (record { entries = h.entries; next = h.next })
  perform-Leased (flushed now) s r h =
      flush_rounds-Leased q until (length s.pending_polls) now s r h
  perform-Leased (settled now ms x) s r h = settle-Leased now ms x s r h
  perform-Leased (acked id t) s r h = acknowledge-Leased id t s h
  perform-Leased (released id t) s r h = release-Leased id t s r h
  perform-Leased (retired id) s r h = retire-Leased id s h
  perform-Leased exits_canceled s r h = Leased-filter q until (λ x. not (is_anonymous_exit x)) s h

  perform_all-Leased :
      (os : List Operation) (s : Server)
      → All RespectsLease os
      → Leased q until s
      → Leased q until (perform_all os s)
  unfolding perform_all
  perform_all-Leased [] s r h = h
  perform_all-Leased (o ∷ os) s r h =
      perform_all-Leased os (perform o s) r.1 (perform-Leased o s r.0 h)

-- Once an entry of a queue in order is claimed for some time, then whatever the handlers do to the
-- queue before that time is over, other than to release the claimed event or to end the claim itself
-- with an earlier lease: no poll is handed an entry of its number, whatever types it asks for.
pub claim-exclusive :
    (now t lease_ms : ℕ) (q x : Queued) (s : Server) (os : List Operation)
    (types : Option (List EventType))
    → IsQueue s
    → Memᴰ q s.pending_events
    → All (RespectsLease q (now + lease_ms)) os
    → t < now + lease_ms
    → select_available t types (perform_all os (claim now lease_ms q s)).pending_events ≡ some x
    → x.seq ≢ q.seq
claim-exclusive now t lease_ms q x s os types k m r h e =
    let after = perform_all os (claim now lease_ms q s) in
    let leased =
      perform_all-Leased q (now + lease_ms) os (claim now lease_ms q s) r
        (claim-Leased now lease_ms q s k m) in
    held_unavailable q (now + lease_ms) t types after.pending_events x h leased.entries e
