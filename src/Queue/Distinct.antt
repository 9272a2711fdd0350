-- ===== src/Queue/Distinct.antt =====
-- No two entries of the queue are duplicates of one another, and no two have the same number, after
-- any operations (live-server.mjs).
use agent_bus.Shared.{
  All, All-append, All-filter, Bool, Bool-cases, List, [], arith, false, filter, inl, inr, refl,
  str_eq, ℕ, ◌++◌, ◌<◌, ◌==◌, ◌∷◌, ◌≡◌, All-map_pred, if◌then◌else◌, none, true, ◌+◌, Option,
  String, find, length, not, suc, zero, Option-cases,
}
use agent_bus.Session.{Event}
use agent_bus.Queue.{Queued}
use agent_bus.Queue.Server.{
  Server, has_duplicate, is_duplicate, push_event, remove_seq, set_lease, take_first, Poll,
  acknowledge, cancel_anonymous_exits, claim, enqueue_event, find_poll, flush_pending_polls,
  flush_rounds, is_anonymous_exit, is_generation_of, matches, release, retire_generation, settle,
}
use agent_bus.Vocabulary.{EventType}

-- What an entry and a later one have to do with one another: nothing, if the later one has an id.
abbrev pub Apart : Queued → Queued → Type 0
Apart q x = (str_eq x.event.id "" ≡ false → is_duplicate x.event q ≡ false) × (q.seq < x.seq)

abbrev pub Distinct : List Queued → Type 0
Distinct [] = Unit
Distinct (q ∷ qs) = All (Apart q) qs × Distinct qs

pub record IsQueue (s : Server) : Type 0 where
  pub distinct : Distinct s.pending_events
  pub below : All (λ q. q.seq < s.next_event_seq) s.pending_events

Distinct-append :
    (xs : List Queued) (x : Queued)
    → Distinct xs
    → All (λ q. Apart q x) xs
    → Distinct (xs ++ x ∷ [])
Distinct-append [] x h k = (tt, tt)
Distinct-append (q ∷ qs) x h k =
    (All-append (Apart q) qs (x ∷ []) h.0 (k.0, tt), Distinct-append qs x h.1 k.1)

Distinct-filter : (p : Queued → Bool) (xs : List Queued) → Distinct xs → Distinct (filter p xs)
Distinct-filter p [] h = tt
Distinct-filter p (x ∷ xs) h = elim (Bool-cases (p x)) [
  | inl e ↦ rw e (All-filter (Apart x) p xs h.0, Distinct-filter p xs h.1)
  | inr e ↦ rw e (Distinct-filter p xs h.1)
]

pub All-take_first {κ} :
    (P : Queued → Type κ) (p : Queued → Bool) (xs : List Queued)
    → All P xs
    → All P (take_first p xs)
unfolding take_first
All-take_first P p [] h = tt
All-take_first P p (x ∷ xs) h = elim (Bool-cases (p x)) [
  | inl e ↦ rw e (h.1)
  | inr e ↦ rw e (h.0, All-take_first P p xs h.1)
]

Distinct-take_first :
    (p : Queued → Bool) (xs : List Queued) → Distinct xs → Distinct (take_first p xs)
unfolding take_first
Distinct-take_first p [] h = tt
Distinct-take_first p (x ∷ xs) h = elim (Bool-cases (p x)) [
  | inl e ↦ rw e (h.1)
  | inr e ↦ rw e (All-take_first (Apart x) p xs h.0, Distinct-take_first p xs h.1)
]

-- Taking an entry out by its number is taking out the first that has it.
pub remove_seq-take_first :
    (n : ℕ) (xs : List Queued) → remove_seq n xs ≡ take_first (λ q. q.seq == n) xs
unfolding remove_seq take_first
remove_seq-take_first n [] = refl
remove_seq-take_first n (x ∷ xs) = rw (remove_seq-take_first n xs)

-- A lease changes neither the events nor the numbers.
All-set_lease {κ} :
    (P : Queued → Type κ) (n t : ℕ) (xs : List Queued)
    → ((q : Queued) → P q → P (record q { lease_until = t }))
    → All P xs
    → All P (set_lease n t xs)
unfolding set_lease
All-set_lease P n t [] f h = tt
All-set_lease P n t (x ∷ xs) f h = elim (Bool-cases (x.seq == n)) [
  | inl e ↦ rw e (f x h.0, All-set_lease P n t xs f h.1)
  | inr e ↦ rw e (h.0, All-set_lease P n t xs f h.1)
]

Distinct-set_lease : (n t : ℕ) (xs : List Queued) → Distinct xs → Distinct (set_lease n t xs)
unfolding set_lease
Distinct-set_lease n t [] h = tt
Distinct-set_lease n t (x ∷ xs) h = elim (Bool-cases (x.seq == n)) [
  | inl e ↦ rw e (All-set_lease (Apart x) n t xs (λ q k. k) h.0, Distinct-set_lease n t xs h.1)
  | inr e ↦ rw e (All-set_lease (Apart x) n t xs (λ q k. k) h.0, Distinct-set_lease n t xs h.1)
]

no_duplicate :
    (e : Event) (m : ℕ) (xs : List Queued) (x : Queued)
    → x.event ≡ e
    → x.seq ≡ m
    → has_duplicate e xs ≡ false
    → All (λ q. q.seq < m) xs
    → All (λ q. Apart q x) xs
no_duplicate e m [] x p q h k = tt
no_duplicate e m (y ∷ ys) x p q h k =
    (((λ z. rw p (ground arith)), rw q (k.0)), no_duplicate e m ys x p q (ground arith) k.1)

entry_of : Event → ℕ → Queued
entry_of e n = record {
  event = e;
  scaffold_attempted = false;
  generation_ready_at = none;
  lease_until = 0;
  seq = n;
}

appended-IsQueue :
    (e : Event) (s : Server)
    → IsQueue s
    → has_duplicate e s.pending_events ≡ false
    → IsQueue (record s {
      pending_events = s.pending_events ++ entry_of e s.next_event_seq ∷ [];
      next_event_seq = s.next_event_seq + 1;
    })
unfolding entry_of
appended-IsQueue e s h d = record {
  distinct = Distinct-append s.pending_events (entry_of e s.next_event_seq) h.distinct (
      no_duplicate e s.next_event_seq s.pending_events (entry_of e s.next_event_seq) refl refl d
        h.below);
  below =
      All-append (λ q. q.seq < s.next_event_seq + 1) s.pending_events
        (entry_of e s.next_event_seq ∷ [])
        (All-map_pred (λ q. q.seq < s.next_event_seq) (λ q. q.seq < s.next_event_seq + 1)
          s.pending_events (λ q k. ground arith) h.below)
        (ground arith, tt);
}

push_event-IsQueue : (e : Event) (s : Server) → IsQueue s → IsQueue (push_event e s)
unfolding push_event entry_of
push_event-IsQueue e s h = by_test (has_duplicate e s.pending_events) refl
  where
    by_test :
        (b : Bool)
        → has_duplicate e s.pending_events ≡ b
        → IsQueue (
            if b then s else record s {
              pending_events = s.pending_events ++ entry_of e s.next_event_seq ∷ [];
              next_event_seq = s.next_event_seq + 1;
            })
    by_test true d = h
    by_test false d = appended-IsQueue e s h d

claim-IsQueue : (now ms : ℕ) (q : Queued) (s : Server) → IsQueue s → IsQueue (claim now ms q s)
unfolding claim
claim-IsQueue now ms q s h = record {
  distinct = Distinct-set_lease q.seq (now + ms) s.pending_events h.distinct;
  below =
      All-set_lease (λ x. x.seq < s.next_event_seq) q.seq (now + ms) s.pending_events (λ x k. k)
        h.below;
}

taken-IsQueue :
    (p : Queued → Bool) (s : Server)
    → IsQueue s
    → IsQueue (record s { pending_events = take_first p s.pending_events })
taken-IsQueue p s h = record {
  distinct = Distinct-take_first p s.pending_events h.distinct;
  below = All-take_first (λ x. x.seq < s.next_event_seq) p s.pending_events h.below;
}

filtered-IsQueue :
    (p : Queued → Bool) (s : Server)
    → IsQueue s
    → IsQueue (record s { pending_events = filter p s.pending_events })
filtered-IsQueue p s h = record {
  distinct = Distinct-filter p s.pending_events h.distinct;
  below = All-filter (λ x. x.seq < s.next_event_seq) p s.pending_events h.below;
}

settle-IsQueue : (now ms : ℕ) (q : Queued) (s : Server) → IsQueue s → IsQueue (settle now ms q s)
unfolding settle claim
settle-IsQueue now ms q s h = elim (Bool-cases (str_eq q.event.id "")) [
  | inl e ↦
      rw e (
        rw (remove_seq-take_first q.seq s.pending_events) (taken-IsQueue (λ x. x.seq == q.seq) s h))
  | inr e ↦ rw e (claim-IsQueue now ms q s h)
]

pub flush_rounds-IsQueue : (n now : ℕ) (s : Server) → IsQueue s → IsQueue ((flush_rounds n now s).1)
unfolding flush_rounds
flush_rounds-IsQueue zero now s h = h
flush_rounds-IsQueue (suc n) now s h =
    elim (Option-cases (find_poll now s.pending_events s.pending_polls)) [
      | inl e ↦ rw (flush_rounds, e) h
      | inr ((d, left), e) ↦
          rw (flush_rounds, e)
            (flush_rounds-IsQueue n now
              (claim now d.poll.lease_ms d.entry (record s { pending_polls = left }))
              (claim-IsQueue now d.poll.lease_ms d.entry (record s { pending_polls = left })
                (record { distinct = h.distinct; below = h.below })))
    ]

pub enqueue_event-IsQueue :
    (now : ℕ) (e : Event) (s : Server) → IsQueue s → IsQueue ((enqueue_event now e s).1)
unfolding enqueue_event flush_pending_polls entry_of push_event
enqueue_event-IsQueue now e s h = elim (Bool-cases (has_duplicate e s.pending_events)) [
  | inl d ↦ rw d h
  | inr d ↦ rw d (
      flush_rounds-IsQueue (length s.pending_polls) now
        (record s {
          pending_events = s.pending_events ++ entry_of e s.next_event_seq ∷ [];
          next_event_seq = s.next_event_seq + 1;
        })
        (appended-IsQueue e s h d))
]

pub acknowledge-IsQueue :
    (id : String) (t : Option EventType) (s : Server) → IsQueue s → IsQueue ((acknowledge id t s).1)
unfolding acknowledge
acknowledge-IsQueue id t s h = elim (Bool-cases (str_eq id "")) [
  | inl e ↦ rw e h
  | inr e ↦ elim (Option-cases (find (matches id t) s.pending_events)) [
    | inl f ↦ rw e (rw f h)
    | inr (q, f) ↦ rw e (rw f (taken-IsQueue (matches id t) s h))
  ]
]

pub release-IsQueue :
    (id : String) (t : Option EventType) (s : Server) → IsQueue s → IsQueue ((release id t s).1)
unfolding release claim
release-IsQueue id t s h = elim (Option-cases (find (matches id t) s.pending_events)) [
  | inl f ↦ rw (release, f) h
  | inr (q, f) ↦ rw (release, f) (claim-IsQueue 0 0 q s h)
]

pub retire-IsQueue : (id : String) (s : Server) → IsQueue s → IsQueue (retire_generation id s)
unfolding retire_generation
retire-IsQueue id s h = elim (Bool-cases (str_eq id "")) [
  | inl e ↦ rw e h
  | inr e ↦ rw e (filtered-IsQueue (λ q. not (is_generation_of id q)) s h)
]

-- What the handlers do to the queue, each with the time it is done at where it matters.
pub data Operation : Type 0 where
  enqueue : ℕ → Event → Operation
  poll : ℕ → Poll → Operation
  flushed : ℕ → Operation
  settled : ℕ → ℕ → Queued → Operation
  acked : String → Option EventType → Operation
  released : String → Option EventType → Operation
  retired : String → Operation
  exits_canceled : Operation

unfoldable pub perform : Operation → Server → Server
unfolding enqueue_event flush_pending_polls settle acknowledge release retire_generation
    cancel_anonymous_exits
perform (enqueue now e) s = (enqueue_event now e s).1
perform (poll now p) s =
    (flush_pending_polls now (record s { pending_polls = s.pending_polls ++ p ∷ [] })).1
perform (flushed now) s = (flush_pending_polls now s).1
perform (settled now ms q) s = settle now ms q s
perform (acked id t) s = (acknowledge id t s).1
perform (released id t) s = (release id t s).1
perform (retired id) s = retire_generation id s
perform exits_canceled s = cancel_anonymous_exits s

unfoldable pub perform_all : List Operation → Server → Server
unfolding perform
perform_all [] s = s
perform_all (o ∷ os) s = perform_all os (perform o s)

perform-IsQueue : (o : Operation) (s : Server) → IsQueue s → IsQueue (perform o s)
unfolding perform flush_pending_polls cancel_anonymous_exits
perform-IsQueue (enqueue now e) s h = enqueue_event-IsQueue now e s h
perform-IsQueue (poll now p) s h =
    flush_rounds-IsQueue (length (s.pending_polls ++ p ∷ [])) now
      (record s { pending_polls = s.pending_polls ++ p ∷ [] })
      (record { distinct = h.distinct; below = h.below })
perform-IsQueue (flushed now) s h = flush_rounds-IsQueue (length s.pending_polls) now s h
perform-IsQueue (settled now ms q) s h = settle-IsQueue now ms q s h
perform-IsQueue (acked id t) s h = acknowledge-IsQueue id t s h
perform-IsQueue (released id t) s h = release-IsQueue id t s h
perform-IsQueue (retired id) s h = retire-IsQueue id s h
perform-IsQueue exits_canceled s h = filtered-IsQueue (λ q. not (is_anonymous_exit q)) s h

-- Whatever operations the handlers do, in any order and at any times, on a queue whose entries are
-- distinct and numbered below the next number: in the end no entry has the number of another, none
-- that has an id duplicates an earlier one, and every number is below the next one.
pub perform_all-IsQueue :
    (os : List Operation) (s : Server) → IsQueue s → IsQueue (perform_all os s)
unfolding perform_all
perform_all-IsQueue [] s h = h
perform_all-IsQueue (o ∷ os) s h = perform_all-IsQueue os (perform o s) (perform-IsQueue o s h)
