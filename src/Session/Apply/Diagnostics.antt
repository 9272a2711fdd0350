-- ===== src/Session/Apply/Diagnostics.antt =====
-- The diagnostics of a session: what the store notes of the events (live/session-store.mjs).
use agent_bus.Shared.{Bool, List, [], any, arith, if◌then◌else◌, ℕ, ◌++◌, ◌+◌, ◌∷◌, ◌≡◌}
use agent_bus.Session.{Clock, Diagnostic, Entry, Event, Snapshot, unknown_event_type}
use agent_bus.Vocabulary.{EventType, generate, journal_event_types, type_eq}
use agent_bus.Session.Apply.{dispatch, apply_event, copy_snapshot}
use agent_bus.Session.Handlers.{entry_event}

-- 1 for the note of an event type that the store does not know, 0 for any other.
abbrev pub is_unknown : Diagnostic → ℕ
is_unknown (unknown_event_type t) = 1
is_unknown _ = 0

abbrev pub count_unknown : List Diagnostic → ℕ
count_unknown [] = 0
count_unknown (d ∷ ds) = is_unknown d + count_unknown ds

count_unknown-append :
    (ds : List Diagnostic) (d : Diagnostic)
    → count_unknown (ds ++ d ∷ []) ≡ count_unknown ds + is_unknown d
count_unknown-append [] d = omega arith
count_unknown-append (x ∷ ds) d = omega (arith, count_unknown-append ds d)

-- JOURNAL_EVENT_TYPES.includes(type)
abbrev pub is_journal_type : EventType → Bool
is_journal_type t = any (λ u. type_eq u t) journal_event_types

module _ (c : Clock) where
  dispatch_unknown :
      (t : EventType) (en : Entry) (e : Event) (next : Snapshot)
      → count_unknown (dispatch c t en e next).diagnostics
        ≡ count_unknown next.diagnostics + (if is_journal_type t then 0 else 1)
  unfolding dispatch
  dispatch_unknown generate en e next = grind (arith, count_unknown-append)
  dispatch_unknown _ en e next = grind (arith, count_unknown-append)

  -- An event adds a note of an unknown type exactly if its type is not in JOURNAL_EVENT_TYPES, and
  -- then one.
  pub unknown-apply_event :
      (s : Snapshot) (en : Entry)
      → count_unknown (apply_event c s en).diagnostics
        ≡ count_unknown s.diagnostics + (if is_journal_type (entry_event en).type then 0 else 1)
  unfolding apply_event copy_snapshot
  unknown-apply_event s en =
      dispatch_unknown (entry_event en).type en (entry_event en) (copy_snapshot c s en)
