-- ===== src/Examples/Queues.antt =====
-- Queues of a few events (live-server.mjs, live/poll-lanes.mjs).
use mathlib.Core.List.{Memᴰ}
use agent_bus.Shared.{All, List, [], false, none, refl, true, ℕ, ◌∷◌, ◌≡◌, arith, ◌≢◌, some}
use agent_bus.Vocabulary.{EventType, accept, generate, steer, discard}
use agent_bus.Queue.Delivery.{IsFlushed, flush_pending_polls-IsFlushed}
use agent_bus.Queue.Distinct.{
  IsQueue, Operation, acked, enqueue, perform_all, perform_all-IsQueue, poll, retired, flushed,
  perform, released,
}
use agent_bus.Queue.Server.{
  Poll, Server, flush_pending_polls, claim, set_lease, enqueue_event, flush_rounds, push_event,
  release,
}
use agent_bus.Queue.{
  Queued, event_priority, goes_before, insert_entry, is_allowed, is_leased, select_available,
  sort_entries,
}
use agent_bus.Examples.{event_of}
use agent_bus.Queue.Selection.{select_available-first, NoLater}
use agent_bus.Queue.Leases.{claim-exclusive}

abbrev pub queued : ℕ → ℕ → EventType → Queued
queued n lease t = record {
  event = event_of t;
  scaffold_attempted = false;
  generation_ready_at = none;
  lease_until = lease;
  seq = n;
}

abbrev three_entries : List Queued
three_entries = queued 1 50 generate ∷ queued 2 0 steer ∷ queued 3 0 accept ∷ []

abbrev empty_server : Server
empty_server = record { pending_events = []; pending_polls = []; next_event_seq = 1 }

abbrev anyone : Poll
anyone = record { number = 1; lease_ms = 30; types = none }

abbrev parked_server : Server
parked_server = record {
  pending_events = three_entries;
  pending_polls = anyone ∷ anyone ∷ anyone ∷ [];
  next_event_seq = 4;
}

abbrev some_operations : List Operation
some_operations =
    enqueue 1 (event_of generate)
    ∷ enqueue 2 (event_of generate)
    ∷ poll 3 anyone
    ∷ enqueue 4 (event_of accept)
    ∷ acked "a1b2c3d4" none
    ∷ retired "a1b2c3d4"
    ∷ []

select_available-first_example :
    Memᴰ (queued 3 0 accept) three_entries
    × (is_leased 9 (queued 3 0 accept) ≡ false)
    × (is_allowed none (queued 3 0 accept) ≡ true)
    × All
        (λ x. is_leased 9 x ≡ false → is_allowed none x ≡ true → NoLater (queued 3 0 accept) x)
        three_entries
select_available-first_example =
    select_available-first 9 none three_entries (queued 3 0 accept)
      (unfold select_available sort_entries insert_entry goes_before event_priority in refl)

perform_all-IsQueue_example : IsQueue (perform_all some_operations empty_server)
perform_all-IsQueue_example =
    perform_all-IsQueue some_operations empty_server (record { distinct = tt; below = tt })

flush_pending_polls-IsFlushed_example : IsFlushed 9 ((flush_pending_polls 9 parked_server).1)
flush_pending_polls-IsFlushed_example = flush_pending_polls-IsFlushed 9 parked_server

-- The discard is claimed; the steer is released, another event comes, and the next poll is handed
-- the steer.
abbrev two_entries : Server
two_entries = record {
  pending_events = queued 1 0 discard ∷ queued 2 0 steer ∷ [];
  pending_polls = [];
  next_event_seq = 3;
}

abbrev meanwhile : List Operation
meanwhile = released "a1b2c3d4" (some steer) ∷ enqueue 12 (event_of generate) ∷ flushed 13 ∷ []

claim-exclusive_example : (queued 2 0 steer).seq ≢ (queued 1 0 discard).seq
unfolding goes_before event_priority
claim-exclusive_example =
    claim-exclusive 9 20 30 (queued 1 0 discard) (queued 2 0 steer) two_entries meanwhile none
      (record {
        distinct = (((λ e. refl, omega arith), tt), (tt, tt));
        below = (omega arith, (omega arith, tt));
      })
      (Memᴰ.head refl) (refl, (omega arith, (omega arith, tt))) (omega arith)
      (unfold select_available sort_entries perform_all perform claim set_lease release
          enqueue_event push_event flush_pending_polls flush_rounds in
        refl)
