-- ===== src/Queue/Server.antt =====
-- live-server.mjs: the operations on the queue of events and on the parked polls.
use agent_bus.Shared.{
  Bool, List, Option, String, [], any, false, filter, find, if◌then◌else◌, length, none, not,
  num_eq, some, str_eq, suc, zero, ℕ, ◌&&◌, ◌++◌, ◌+◌, ◌==◌, ◌||◌, ◌∷◌,
}
use agent_bus.Session.{Event}
use agent_bus.Vocabulary.{EventType, exit, generate, type_eq, variant_mount_failed}
use agent_bus.Queue.{Queued, select_available}

-- A parked poll of an agent.
pub record Poll : Type 0 where
  pub number : ℕ
  pub lease_ms : ℕ
  pub types : Option (List EventType)

pub record Server : Type 0 where
  pub pending_events : List Queued
  pub pending_polls : List Poll
  pub next_event_seq : ℕ

-- An event that a poll has got.
pub record Delivery : Type 0 where
  pub poll : Poll
  pub entry : Queued

abbrev pub same_variant : Event → Event → Bool
same_variant a b = num_eq a.variant b.variant

-- The duplicate of an event in the queue: same session and type, and for a mount failure the same
-- variant.
abbrev pub is_duplicate : Event → Queued → Bool
is_duplicate e q =
    str_eq q.event.id e.id
    && (type_eq q.event.type e.type
        && (not (type_eq e.type variant_mount_failed) || same_variant q.event e))

-- `id && ... some(...)`
abbrev pub has_duplicate : Event → List Queued → Bool
has_duplicate e entries = not (str_eq e.id "") && any (is_duplicate e) entries

unfoldable pub push_event : Event → Server → Server
push_event e s = if has_duplicate e s.pending_events then s else record s {
  pending_events =
      s.pending_events
      ++ record {
        event = e;
        scaffold_attempted = false;
        generation_ready_at = none;
        lease_until = 0;
        seq = s.next_event_seq;
      }
        ∷ [];
  next_event_seq = s.next_event_seq + 1;
}

-- `entry.leaseUntil = t`, for the entry with this seq
unfoldable pub set_lease : ℕ → ℕ → List Queued → List Queued
set_lease seq t [] = []
set_lease seq t (q ∷ qs) =
    (if q.seq == seq then record q { lease_until = t } else q) ∷ set_lease seq t qs

-- `splice` of the entry with this seq
unfoldable pub remove_seq : ℕ → List Queued → List Queued
remove_seq seq [] = []
remove_seq seq (q ∷ qs) = let rest = remove_seq seq qs in if q.seq == seq then qs else q ∷ rest

-- What leaseEvent does to the queue up to its first `await`: the claim. What it journals there is
-- journal_pickup, of Queue.Phases.
unfoldable pub claim : ℕ → ℕ → Queued → Server → Server
unfolding set_lease
claim now lease_ms q s = record s {
  pending_events = set_lease q.seq (now + lease_ms) s.pending_events;
}

-- What leaseEvent does to the queue from there: an event with no id leaves it, any other is leased
-- anew.
unfoldable pub settle : ℕ → ℕ → Queued → Server → Server
unfolding set_lease remove_seq
settle now lease_ms q s =
    if str_eq q.event.id ""
    then record s { pending_events = remove_seq q.seq s.pending_events }
    else record s { pending_events = set_lease q.seq (now + lease_ms) s.pending_events }

-- The inner loop of flushPendingPolls: the first poll that some available event suits, with the event
-- and the polls that stay.
unfoldable pub find_poll : ℕ → List Queued → List Poll → Option (Delivery × List Poll)
find_poll now entries [] = none
find_poll now entries (p ∷ ps) =
    let rest = find_poll now entries ps in
    elim (select_available now p.types entries) [
      | some q ↦ some (record { poll = p; entry = q }, ps)
      | none ↦ elim rest [ none ↦ none | some (d, left) ↦ some (d, p ∷ left) ]
    ]

-- flushPendingPolls, on the queue: a round for each poll that gets an event. Every round takes one
-- poll away, so that as many rounds as there are polls are enough. The deliveries say for which events
-- leaseEvent was called: journal_pickups, of Queue.Phases, is what these calls journal.
unfoldable pub flush_rounds : ℕ → ℕ → Server → List Delivery × Server
unfolding find_poll claim
flush_rounds zero now s = ([], s)
flush_rounds (suc n) now s = elim (find_poll now s.pending_events s.pending_polls) [
  | none ↦ ([], s)
  | some (d, left) ↦
      let (ds, t) =
        flush_rounds n now
          (claim now d.poll.lease_ms d.entry (record s { pending_polls = left })) in
      (d ∷ ds, t)
]

unfoldable pub flush_pending_polls : ℕ → Server → List Delivery × Server
unfolding flush_rounds
flush_pending_polls now s = flush_rounds (length s.pending_polls) now s

-- enqueueEvent: nothing but a dropped duplicate goes without the flush.
unfoldable pub enqueue_event : ℕ → Event → Server → List Delivery × Server
unfolding push_event flush_pending_polls
enqueue_event now e s =
    if has_duplicate e s.pending_events then ([], s) else flush_pending_polls now (push_event e s)

-- `entry.event?.id === id && (!sourceEventType || entry.event?.type === sourceEventType)`
abbrev pub matches : String → Option EventType → Queued → Bool
matches id none q = str_eq q.event.id id
matches id (some t) q = str_eq q.event.id id && type_eq q.event.type t

-- The first match is taken out.
unfoldable pub take_first : (Queued → Bool) → List Queued → List Queued
take_first p [] = []
take_first p (q ∷ qs) = let rest = take_first p qs in if p q then qs else q ∷ rest

-- acknowledgePendingEvent: the event that was acknowledged, and the server
unfoldable pub acknowledge : String → Option EventType → Server → Option Queued × Server
unfolding take_first
acknowledge id t s =
    if str_eq id "" then (none, s) else elim (find (matches id t) s.pending_events) [
      | none ↦ (none, s)
      | some q ↦ (some q, record s { pending_events = take_first (matches id t) s.pending_events })
    ]

-- releasePendingEvent
unfoldable pub release : String → Option EventType → Server → Option Queued × Server
unfolding set_lease
release id t s = elim (find (matches id t) s.pending_events) [
  | none ↦ (none, s)
  | some q ↦ (some q, record s { pending_events = set_lease q.seq 0 s.pending_events })
]

abbrev pub is_generation_of : String → Queued → Bool
is_generation_of id q = str_eq q.event.id id && type_eq q.event.type generate

-- retirePendingGeneration, without the count
unfoldable pub retire_generation : String → Server → Server
retire_generation id s =
    if str_eq id ""
    then s
    else record s { pending_events = filter (λ q. not (is_generation_of id q)) s.pending_events }

abbrev pub is_anonymous_exit : Queued → Bool
is_anonymous_exit q = type_eq q.event.type exit && str_eq q.event.id ""

-- cancelQueuedAnonymousExitEvents, without the count
unfoldable pub cancel_anonymous_exits : Server → Server
cancel_anonymous_exits s = record s {
  pending_events = filter (λ q. not (is_anonymous_exit q)) s.pending_events;
}
