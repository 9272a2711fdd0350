-- ===== src/Queue/Replies.antt =====
-- live-server.mjs, inferSourceEventType: which event of the queue the reply of an agent settles,
-- when the reply does not say.
use mathlib.Core.List.{Memᴰ}
use agent_bus.Shared.{
  All, All-of_filter, Bool, Bool-cases, List, Option, String, [], any, false, filter, find,
  if◌then◌else◌, inl, inr, none, not, refl, some, str_eq, true, ℕ, ◌&&◌, ◌∷◌, ◌≡◌, ◌⊎◌, All-Mem,
  All-filter, All-filter_test, ap,
}
use agent_bus.Vocabulary.{
  EventType, accept, carbonize_cleanup, discard, generate, steer, type_eq, variant_mount_failed,
}
use agent_bus.Queue.{Queued, is_leased}

pub data ReplyType : Type 0 where
  discarded_reply discard_reply complete_reply steer_reply done_reply error_reply : ReplyType
  other_reply : String → ReplyType

abbrev pub of_id : String → List Queued → List Queued
of_id id entries = filter (λ q. str_eq q.event.id id) entries

-- `pendingTypes.has(type)`
abbrev pub has_type : EventType → List Queued → Bool
has_type t entries = any (λ q. type_eq q.event.type t) entries

-- `entry?.event?.type || 'generate'`
abbrev pub type_or_generate : Option Queued → EventType
type_or_generate none = generate
type_or_generate (some q) = q.event.type

-- `entriesForId.find(isLeased)?.event?.type || 'generate'`
abbrev pub leased_type : ℕ → List Queued → EventType
leased_type now entries = type_or_generate (find (is_leased now) entries)

-- inferSourceEventType; `none` is `undefined`, which matches every event of the session.
unfoldable pub infer_source_event_type : ℕ → String → ReplyType → List Queued → Option EventType
infer_source_event_type now id discarded_reply entries = some discard
infer_source_event_type now id discard_reply entries = some discard
infer_source_event_type now id complete_reply entries =
    if has_type carbonize_cleanup (of_id id entries)
    then some carbonize_cleanup
    else if has_type accept (of_id id entries)
    then some accept
    else if has_type generate (of_id id entries)
    then some generate
    else none
infer_source_event_type now id steer_reply entries = some steer
infer_source_event_type now id done_reply entries =
    if not (has_type generate (of_id id entries))
      && has_type variant_mount_failed (of_id id entries)
    then some variant_mount_failed
    else some generate
infer_source_event_type now id error_reply entries = some (leased_type now (of_id id entries))
infer_source_event_type now id (other_reply s) entries = none

All-both {κ μ} :
    (P : Queued → Type κ) (Q : Queued → Type μ) (xs : List Queued)
    → All P xs
    → All Q xs
    → All (λ q. P q × Q q) xs
All-both P Q [] h k = tt
All-both P Q (x ∷ xs) h k = ((h.0, k.0), All-both P Q xs h.1 k.1)

-- An element that is found is one of the list, and has what all of the list have.
find_cases {κ} :
    (P : Queued → Type κ) (p : Queued → Bool) (xs : List Queued)
    → All P xs
    → ((find p xs ≡ none) × All (λ q. p q ≡ false) xs)
      ⊎ ((q : Queued) × (find p xs ≡ some q) × P q × (p q ≡ true))
find_cases P p [] h = inl (refl, tt)
find_cases P p (x ∷ xs) h = elim (Bool-cases (p x)) [
  | inl e ↦ inr (x, rw e refl, h.0, e)
  | inr e ↦ elim (find_cases P p xs h.1) [
    | inl k ↦ inl (rw e (k.0), (e, k.1))
    | inr (q, f, m, k) ↦ inr (q, rw e f, m, k)
  ]
]

-- The reply `error` never stands for every event of the session: it settles the type of an entry of
-- this session that is under a lease, or, if the session has no such entry, the type `generate`.
pub error_reply_source :
    (now : ℕ) (id : String) (entries : List Queued)
    → ((q : Queued) × (infer_source_event_type now id error_reply entries ≡ some q.event.type)
        × Memᴰ q entries
        × (str_eq q.event.id id ≡ true)
        × (is_leased now q ≡ true))
      ⊎ ((infer_source_event_type now id error_reply entries ≡ some generate)
          × All (λ q. str_eq q.event.id id ≡ true → is_leased now q ≡ false) entries)
unfolding infer_source_event_type
error_reply_source now id entries =
    elim (find_cases (λ q. Memᴰ q entries × (str_eq q.event.id id ≡ true)) (is_leased now)
      (of_id id entries)
      (All-both (λ q. Memᴰ q entries) (λ q. str_eq q.event.id id ≡ true) (of_id id entries)
        (All-filter (λ q. Memᴰ q entries) (λ q. str_eq q.event.id id) entries (All-Mem entries))
        (All-filter_test (λ q. str_eq q.event.id id) entries))) [
          | inl h ↦ inr (
            ap (λ (o : Option Queued). some (type_or_generate o)) (h.0),
            All-of_filter (λ q. is_leased now q ≡ false) (λ q. str_eq q.event.id id) entries h.1,
          )
          | inr (q, f, m, k) ↦
              inl (q, ap (λ (o : Option Queued). some (type_or_generate o)) f, m.0, m.1, k)
        ]
