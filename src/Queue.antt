-- ===== src/Queue.antt =====
-- .opencode/skills/impeccable/scripts/live/poll-lanes.mjs and live-server.mjs: the queue of events
-- that wait for an agent. An entry is known by its `seq`, which no other entry has.
pub mod Server
pub mod Replies
pub mod Phases
pub mod Posts
pub mod Sites
pub mod Events
pub mod Selection
pub mod Distinct
pub mod Delivery
pub mod Holding
pub mod Leases
use agent_bus.Shared.{
  Bool, List, Option, [], any, filter, if◌then◌else◌, leb, ltb, none, not, some, true, ℕ, ◌&&◌,
  ◌==◌, ◌||◌, ◌∷◌,
}
use agent_bus.Session.{Event}
use agent_bus.Vocabulary.{
  EventType, accept, carbonize_cleanup, discard, exit, generate, manual_edit_apply, steer, type_eq,
}

-- An entry of `state.pendingEvents`. The two marks are fields that the server adds to the event.
pub record Queued : Type 0 where
  pub event : Event
  pub scaffold_attempted : Bool
  pub generation_ready_at : Option ℕ
  pub lease_until : ℕ
  pub seq : ℕ

-- eventPriority
unfoldable pub event_priority : EventType → ℕ
event_priority accept = 0
event_priority discard = 0
event_priority exit = 0
event_priority manual_edit_apply = 1
event_priority steer = 1
event_priority carbonize_cleanup = 1
event_priority generate = 2
event_priority _ = 3

-- `entry.leaseUntil && entry.leaseUntil > now`
abbrev pub is_leased : ℕ → Queued → Bool
is_leased now q = not (q.lease_until == 0) && ltb now q.lease_until

-- `!allowed || allowed.has(entry.event?.type)`
abbrev pub is_allowed : Option (List EventType) → Queued → Bool
is_allowed none q = true
is_allowed (some types) q = any (λ t. type_eq t q.event.type) types

-- The comparison of the sort: by priority, then by age.
unfoldable pub goes_before : Queued → Queued → Bool
goes_before a b =
    ltb (event_priority a.event.type) (event_priority b.event.type)
    || (event_priority a.event.type == event_priority b.event.type && leb a.seq b.seq)

-- `entries.sort(...)`, as an insertion sort.
unfoldable pub insert_entry : Queued → List Queued → List Queued
insert_entry q [] = q ∷ []
insert_entry q (x ∷ xs) =
    let rest = insert_entry q xs in if goes_before q x then q ∷ x ∷ xs else x ∷ rest

unfoldable pub sort_entries : List Queued → List Queued
unfolding insert_entry
sort_entries [] = []
sort_entries (x ∷ xs) = insert_entry x (sort_entries xs)

abbrev pub first_entry : List Queued → Option Queued
first_entry [] = none
first_entry (x ∷ xs) = some x

-- selectAvailablePendingEvent
unfoldable pub select_available : ℕ → Option (List EventType) → List Queued → Option Queued
unfolding sort_entries
select_available now types entries =
    first_entry
      (sort_entries (filter (is_allowed types) (filter (λ q. not (is_leased now q)) entries)))
