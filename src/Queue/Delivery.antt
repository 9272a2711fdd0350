-- ===== src/Queue/Delivery.antt =====
-- What a flush of the parked polls leaves behind (live-server.mjs, flushPendingPolls).
-- No parked poll has an event that it could get.
use agent_bus.Shared.{
  All, List, Option-cases, [], inl, inr, none, ℕ, ◌∷◌, ◌≡◌, arith, length, some, suc, zero, ◌+◌,
  ◌≤◌,
}
use agent_bus.Queue.Server.{
  Poll, Server, find_poll, Delivery, claim, flush_pending_polls, flush_rounds,
}
use agent_bus.Queue.{Queued, select_available}

abbrev pub IsFlushed : ℕ → Server → Type 0
IsFlushed now s = All (λ p. select_available now p.types s.pending_events ≡ none) s.pending_polls

find_poll-none :
    (now : ℕ) (entries : List Queued) (ps : List Poll)
    → find_poll now entries ps ≡ none
    → All (λ p. select_available now p.types entries ≡ none) ps
unfolding find_poll
find_poll-none now entries [] h = tt
find_poll-none now entries (p ∷ ps) h = elim (Option-cases (select_available now p.types entries)) [
  | inr (q, e) ↦ cc
  | inl e ↦ elim (Option-cases (find_poll now entries ps)) [
    | inl f ↦ (e, find_poll-none now entries ps f)
    | inr (x, f) ↦ cc
  ]
]

find_poll-length :
    (now : ℕ) (entries : List Queued) (ps : List Poll) (d : Delivery) (left : List Poll)
    → find_poll now entries ps ≡ some (d, left)
    → length ps ≡ length left + 1
unfolding find_poll
find_poll-length now entries [] d left h = cc
find_poll-length now entries (p ∷ ps) d left h =
    elim (Option-cases (select_available now p.types entries)) [
      | inr (q, e) ↦ ground arith
      | inl e ↦ elim (Option-cases (find_poll now entries ps)) [
        | inl f ↦ cc
        | inr ((d', left'), f) ↦ ground (arith, find_poll-length now entries ps d' left' f)
      ]
    ]

All-empty {κ} : (P : Poll → Type κ) (ps : List Poll) → length ps ≤ 0 → All P ps
All-empty P [] h = tt
All-empty P (p ∷ ps) h = absurd (omega arith)

flush_rounds-IsFlushed :
    (n now : ℕ) (s : Server) → length s.pending_polls ≤ n → IsFlushed now ((flush_rounds n now s).1)
unfolding flush_rounds claim
flush_rounds-IsFlushed zero now s h =
    All-empty (λ p. select_available now p.types s.pending_events ≡ none) s.pending_polls h
flush_rounds-IsFlushed (suc n) now s h =
    elim (Option-cases (find_poll now s.pending_events s.pending_polls)) [
      | inl e ↦ rw (flush_rounds, e) (find_poll-none now s.pending_events s.pending_polls e)
      | inr ((d, left), e) ↦
          rw (flush_rounds, e)
            (flush_rounds-IsFlushed n now
              (claim now d.poll.lease_ms d.entry (record s { pending_polls = left }))
              (omega (arith, find_poll-length now s.pending_events s.pending_polls d left e)))
    ]

-- After a flush no parked poll has an event in the queue that it could get at that time, for any
-- queue, polls and lease times.
pub flush_pending_polls-IsFlushed :
    (now : ℕ) (s : Server) → IsFlushed now ((flush_pending_polls now s).1)
unfolding flush_pending_polls
flush_pending_polls-IsFlushed now s =
    flush_rounds-IsFlushed (length s.pending_polls) now s (omega arith)
