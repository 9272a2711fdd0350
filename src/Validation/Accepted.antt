-- ===== src/Validation/Accepted.antt =====
-- What an accepted message is sure to have (live/event-validation.mjs).
use agent_bus.Shared.{
  minus_infinity, Bool, Option, String, Value, any, arith, arr, below_zero, bool, false, frac,
  infinity, nan, nat, none, null, num, obj, refl, some, str, true, ℕ, ◌≡◌, ◌≤◌,
}
use agent_bus.Vocabulary.{
  EventType, accept, agent_phase, carbonize_cleanup, checkpoint, client_event_types, discard, exit,
  generate, manual_edits, prefetch, steer, type_eq, variant_mount_failed, variant_mounted,
}
use agent_bus.Validation.{accepted, get, integer_between, is_valid_id}
use agent_bus.Validation.Messages.{
  client_type, validate_accept, validate_agent_phase, validate_as, validate_carbonize_cleanup,
  validate_checkpoint, validate_event, validate_generate, validate_manual_edit_event,
  validate_mount_ack, validate_mount_failure, validate_steer,
}
use agent_bus.Queue.Posts.{known}

-- The events that need no session.
abbrev pub needs_id : EventType → Bool
needs_id exit = false
needs_id prefetch = false
needs_id _ = true

abbrev pub is_client_type : EventType → Bool
is_client_type t = any (λ u. type_eq u t) client_event_types

pub manual-accepted :
    (msg : Value) (label : String)
    → validate_manual_edit_event msg label ≡ accepted
    → is_valid_id (get "id" msg) ≡ true
unfolding validate_manual_edit_event
manual-accepted msg label h = ground arith

generate-accepted :
    (msg : Value)
    → validate_generate msg ≡ accepted
    → (is_valid_id (get "id" msg) ≡ true) × (integer_between 1 8 (get "count" msg) ≡ true)
unfolding validate_generate
generate-accepted msg h = ground arith

accept-accepted : (msg : Value) → validate_accept msg ≡ accepted → is_valid_id (get "id" msg) ≡ true
unfolding validate_accept
accept-accepted msg h = ground arith

checkpoint-accepted :
    (msg : Value) → validate_checkpoint msg ≡ accepted → is_valid_id (get "id" msg) ≡ true
unfolding validate_checkpoint
checkpoint-accepted msg h = ground arith

phase-accepted :
    (msg : Value) → validate_agent_phase msg ≡ accepted → is_valid_id (get "id" msg) ≡ true
unfolding validate_agent_phase
phase-accepted msg h = ground arith

steer-accepted : (msg : Value) → validate_steer msg ≡ accepted → is_valid_id (get "id" msg) ≡ true
unfolding validate_steer
steer-accepted msg h = ground arith

carbonize-accepted :
    (msg : Value) → validate_carbonize_cleanup msg ≡ accepted → is_valid_id (get "id" msg) ≡ true
unfolding validate_carbonize_cleanup
carbonize-accepted msg h = ground arith

pub mount-accepted :
    (msg : Value)
    → validate_mount_ack msg ≡ accepted
    → (is_valid_id (get "id" msg) ≡ true) × (integer_between 1 999 (get "variant" msg) ≡ true)
unfolding validate_mount_ack
mount-accepted msg h = ground arith

pub failure-accepted :
    (msg : Value)
    → validate_mount_failure msg ≡ accepted
    → (is_valid_id (get "id" msg) ≡ true) × (integer_between 1 999 (get "variant" msg) ≡ true)
unfolding validate_mount_failure
failure-accepted msg h = ground arith

validate_as-accepted :
    (t : EventType) (msg : Value)
    → validate_as t msg ≡ accepted
    → (is_client_type t ≡ true) × (needs_id t ≡ true → is_valid_id (get "id" msg) ≡ true)
unfolding validate_as
validate_as-accepted generate msg h = (refl, λ k. (generate-accepted msg h).0)
validate_as-accepted accept msg h = (refl, λ k. accept-accepted msg h)
validate_as-accepted discard msg h = (refl, λ k. ground arith)
validate_as-accepted checkpoint msg h = (refl, λ k. checkpoint-accepted msg h)
validate_as-accepted agent_phase msg h = (refl, λ k. phase-accepted msg h)
validate_as-accepted variant_mounted msg h = (refl, λ k. (mount-accepted msg h).0)
validate_as-accepted variant_mount_failed msg h = (refl, λ k. (failure-accepted msg h).0)
validate_as-accepted exit msg h = (refl, λ k. cc)
validate_as-accepted prefetch msg h = (refl, λ k. cc)
validate_as-accepted manual_edits msg h = (refl, λ k. manual-accepted msg "manual_edits" h)
validate_as-accepted steer msg h = (refl, λ k. steer-accepted msg h)
validate_as-accepted carbonize_cleanup msg h = (refl, λ k. carbonize-accepted msg h)
validate_as-accepted _ msg h = cc

-- An accepted message has a text for its type.
event-accepted :
    (msg : Value)
    → validate_event msg ≡ accepted
    → (s : String) × (get "type" msg ≡ some (str s)) × (validate_as (client_type s) msg ≡ accepted)
unfolding validate_event
event-accepted msg h = go (get "type" msg) refl
  where
    go :
        (o : Option Value)
        → get "type" msg ≡ o
        → (s : String) × (get "type" msg ≡ some (str s))
          × (validate_as (client_type s) msg ≡ accepted)
    go none e = ground arith
    go (some (str s)) e = (s, e, ground arith)
    go (some null) e = ground arith
    go (some (bool b)) e = ground arith
    go (some (num n)) e = ground arith
    go (some (arr xs)) e = ground arith
    go (some (obj fs)) e = ground arith

-- An accepted message has one of the CLIENT_EVENT_TYPES for its type, and unless that is `exit` or
-- `prefetch`, an id of eight hexadecimal digits.
pub accepted_type_and_id :
    (msg : Value)
    → validate_event msg ≡ accepted
    → (s : String) × (get "type" msg ≡ some (str s))
      × (is_client_type (client_type s) ≡ true)
      × (needs_id (client_type s) ≡ true → is_valid_id (get "id" msg) ≡ true)
accepted_type_and_id msg h =
    let (s, e, a) = event-accepted msg h in
    let (known, id) = validate_as-accepted (client_type s) msg a in (s, e, known, id)

pub natural_between :
    (lo hi : ℕ) (v : Option Value)
    → integer_between lo hi v ≡ true
    → lo ≤ hi
    → 1 ≤ lo
    → (n : ℕ) × (v ≡ some (num (nat n))) × (lo ≤ n) × (n ≤ hi)
natural_between lo hi (some (num (nat n))) h k p = (n, refl, ground arith, ground arith)
natural_between lo hi (some (num (frac n))) h k p = cc
natural_between lo hi (some (num (below_zero b))) h k p = ground arith
natural_between lo hi (some (num infinity)) h k p = cc
natural_between lo hi (some (num minus_infinity)) h k p = cc
natural_between lo hi (some (num nan)) h k p = cc
natural_between lo hi none h k p = cc
natural_between lo hi (some null) h k p = cc
natural_between lo hi (some (bool b)) h k p = cc
natural_between lo hi (some (str s)) h k p = cc
natural_between lo hi (some (arr xs)) h k p = cc
natural_between lo hi (some (obj fs)) h k p = cc

pub event_as :
    (msg : Value) (s : String)
    → validate_event msg ≡ accepted
    → get "type" msg ≡ some (str s)
    → validate_as (client_type s) msg ≡ accepted
unfolding validate_event
event_as msg s h e = ground arith
