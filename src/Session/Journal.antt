-- ===== src/Session/Journal.antt =====
-- live/session-store.mjs: the journal of a session, its replay (`rebuildSnapshotFromJournal`), and
-- the normal form in which an event is appended (`normalizeEvent`).
pub mod Replay
pub mod Invariants
use agent_bus.Session.{
  Clock, Diagnostic, Entry, Event, Snapshot, base_snapshot, journal_parse_failed,
}
use agent_bus.Shared.{
  List, Option, String, [], if◌then◌else◌, inl, inr, max, none, some, str_eq, value_or, ℕ, ◌++◌,
  ◌+◌, ◌∷◌, ◌⊎◌,
}
use agent_bus.Session.Apply.{apply_event}
use agent_bus.Vocabulary.{other, type_eq}

-- A line of the file, ended by a newline: an entry, white space, or a text that `JSON.parse` or the
-- object test refuses, with the error's message.
pub data Line : Type 0 where
  entry : Entry → Line
  blank : Line
  corrupt : String → Line

pub record Rebuilt : Type 0 where
  pub snapshot : Snapshot
  pub diagnostics : List Diagnostic
  pub next_seq : ℕ

-- `if (Number.isInteger(entry.seq)) nextSeq = Math.max(nextSeq, entry.seq + 1)`
unfoldable pub bump_seq : Option ℕ → ℕ → ℕ
bump_seq none n = n
bump_seq (some q) n = max n (q + 1)

abbrev pub rebuilt_base : String → Rebuilt
rebuilt_base id = record { snapshot = base_snapshot id; diagnostics = []; next_seq = 1 }

abbrev pub with_diagnostics : Rebuilt → Rebuilt
with_diagnostics r = record r {
  snapshot = record r.snapshot { diagnostics = r.snapshot.diagnostics ++ r.diagnostics };
}

module _ (c : Clock) where
  -- One round of the loop; `i` is the index of the line.
  unfoldable pub step_line : ℕ → Rebuilt → Line → Rebuilt
  unfolding bump_seq
  step_line i r (entry en) = record r {
    snapshot = apply_event c r.snapshot en;
    next_seq = bump_seq en.seq r.next_seq;
  }
  step_line i r blank = r
  step_line i r (corrupt m) = record r {
    diagnostics = r.diagnostics ++ journal_parse_failed (i + 1) m ∷ [];
  }

  unfoldable pub replay_lines : ℕ → Rebuilt → List Line → Rebuilt
  unfolding step_line
  replay_lines i r [] = r
  replay_lines i r (l ∷ ls) = replay_lines (i + 1) (step_line i r l) ls

  -- `none` is a file that is not there.
  unfoldable pub rebuild : String → Option (List Line) → Rebuilt
  unfolding replay_lines
  rebuild id none = rebuilt_base id
  rebuild id (some lines) = with_diagnostics (replay_lines 0 (rebuilt_base id) lines)

pub data StoreError : Type 0 where
  event_id_required event_type_required session_id_required invalid_session_id : StoreError

-- `event.id || fallbackId`, and the two tests; the empty text stands for a missing id.
unfoldable pub normalize_event : Event → Option String → Event ⊎ StoreError
normalize_event e fallback =
    let id = if str_eq e.id "" then value_or fallback "" else e.id in
    if str_eq id ""
    then inr event_id_required
    else if type_eq e.type (other "")
    then inr event_type_required
    else inl (record e { id = id })
