-- ===== src/Session/Store.antt =====
-- live/session-store.mjs: `createLiveSessionStore`. The files and the cache of one session id; the
-- ids of other sessions name other files.
pub mod Coherence
pub mod Reads
pub mod Writes
pub mod Later
pub mod Dates
pub mod Processes
pub mod Race
use agent_bus.Shared.{
  Bool, List, Option, [], any, false, if◌then◌else◌, is_some, leb, length, none, not, or_else, some,
  str_eq, true, ℕ, ◌&&◌, ◌+◌, ◌==◌, ◌||◌, ◌∷◌, String, inl, inr, value_or, ◌++◌, ◌⊎◌, codes,
}
use agent_bus.Session.{Clock, Snapshot, Entry, Event}
use agent_bus.Session.Journal.{
  Line, rebuild, StoreError, entry, invalid_session_id, normalize_event, session_id_required,
}
use agent_bus.Session.Apply.{apply_event}
use agent_bus.Vocabulary.{completed_session_phases, has_text}

-- `/^[A-Za-z0-9_-]{1,128}$/.test(id)`, of lib/impeccable-paths.mjs
unfoldable pub is_id_char : ℕ → Bool
is_id_char x =
    (leb b'A' x && leb x b'Z')
    || (leb b'a' x && leb x b'z')
    || (leb b'0' x && leb x b'9')
    || x == b'_'
    || x == b'-'

unfoldable pub safe_session_id : String → Bool
unfolding is_id_char
safe_session_id id =
    leb 1 (length (codes id))
    && leb (length (codes id)) 128
    && not (any (λ x. not (is_id_char x)) (codes id))

pub data Root : Type 0 where
  primary legacy : Root

abbrev pub root_eq : Root → Root → Bool
root_eq primary primary = true
root_eq legacy legacy = true
root_eq _ _ = false

pub record JournalFile : Type 0 where
  pub lines : List Line
  pub mtime : ℕ

-- An entry of the map `derived`; -1 for the size and time of a file that is not there is `none`.
pub record Derived : Type 0 where
  pub snapshot : Snapshot
  pub next_seq : ℕ
  pub journal_path : Root
  pub size : Option ℕ
  pub mtime : Option ℕ

-- A snapshot file that parses: the snapshot is what `{ ...baseSnapshot(id), ...parsed }` gives.
pub record SnapshotFile : Type 0 where
  pub snapshot : Snapshot
  pub journal_bytes : Option ℕ
  pub next_seq : Option ℕ

-- `snapshot_file` is `none` where the file is not there or does not parse to an object.
pub record Slot : Type 0 where
  pub primary_journal : Option JournalFile
  pub legacy_journal : Option JournalFile
  pub snapshot_file : Option SnapshotFile
  pub derived : Option Derived

-- `cached.size === size`, with -1 for `none`
abbrev pub same_number : Option ℕ → Option ℕ → Bool
same_number none none = true
same_number (some a) (some b) = a == b
same_number _ _ = false

-- getReadableJournalPath, with the file
abbrev pub readable_root : Slot → Root
readable_root s =
    if is_some s.primary_journal || not (is_some s.legacy_journal) then primary else legacy

abbrev pub readable_journal : Slot → Option JournalFile
readable_journal s = or_else s.primary_journal s.legacy_journal

-- readSnapshotFile, after the file has parsed
unfoldable pub read_snapshot_file : String → ℕ → Option SnapshotFile → Option (Snapshot × ℕ)
read_snapshot_file id bytes none = none
read_snapshot_file id bytes (some f) =
    if not (same_number f.journal_bytes (some bytes)) then none else elim f.next_seq [
      | none ↦ none
      | some n ↦ if str_eq f.snapshot.id id then some (f.snapshot, n) else none
    ]

-- `bytes` is the length of a line in the file, newline included: the size is their sum.
module _ (bytes : Line → ℕ) where
  unfoldable pub size_of : List Line → ℕ
  size_of [] = 0
  size_of (l ∷ ls) = bytes l + size_of ls

  abbrev pub file_size : Option JournalFile → Option ℕ
  file_size none = none
  file_size (some f) = some (size_of f.lines)

  abbrev pub file_mtime : Option JournalFile → Option ℕ
  file_mtime none = none
  file_mtime (some f) = some f.mtime

  abbrev pub file_lines : Option JournalFile → Option (List Line)
  file_lines none = none
  file_lines (some f) = some f.lines

  unfoldable pub is_fresh : Slot → Derived → Bool
  is_fresh s d =
      root_eq d.journal_path (readable_root s)
      && (same_number d.size (file_size (readable_journal s))
          && same_number d.mtime (file_mtime (readable_journal s)))

  -- An entry of the map for what the journal looks like now.
  abbrev pub derive : Slot → Snapshot → ℕ → Derived
  derive s snapshot n = record {
    snapshot = snapshot;
    next_seq = n;
    journal_path = readable_root s;
    size = file_size (readable_journal s);
    mtime = file_mtime (readable_journal s);
  }

  -- The snapshot file, if the journal is there and the file is current.
  unfoldable pub hydrate :
      String → Bool → Option JournalFile → Option SnapshotFile → Option (Snapshot × ℕ)
  unfolding read_snapshot_file
  hydrate id allow none file = none
  hydrate id false (some f) file = none
  hydrate id true (some f) file = read_snapshot_file id (size_of f.lines) file

  module _ (c : Clock) where
    -- What a read derives when the cache is no help.
    unfoldable pub derive_anew : String → Bool → Slot → Derived
    unfolding hydrate
    derive_anew id allow s = elim (hydrate id allow (readable_journal s) s.snapshot_file) [
      | some (snapshot, n) ↦ derive s snapshot n
      | none ↦
          let r = rebuild c id (file_lines (readable_journal s)) in derive s r.snapshot r.next_seq
    ]

    abbrev pub cached_or : Option Derived → Slot → Derived → Derived
    cached_or none s d = d
    cached_or (some old) s d = if is_fresh s old then old else d

    -- readState: the entry, and the slot with the entry in the map
    unfoldable pub read_state : String → Bool → Slot → Derived × Slot
    unfolding derive_anew is_fresh
    read_state id allow s =
        let d = cached_or s.derived s (derive_anew id allow s) in (d, record s { derived = some d })

    -- persist: the snapshot file and the map are written for the journal as it is now.
    unfoldable pub persist : Snapshot → ℕ → Slot → Slot
    persist snapshot n s = record s {
      snapshot_file = some (record {
        snapshot = snapshot;
        journal_bytes = file_size (readable_journal s);
        next_seq = some n;
      });
      derived = some (derive s snapshot n);
    }

    -- The copy of a legacy journal to its new place, before the first append.
    unfoldable pub adopt_legacy : Slot → Slot
    adopt_legacy s = if is_some s.primary_journal then s else elim s.legacy_journal [
      | none ↦ s
      | some f ↦ record s {
        primary_journal = some (record { lines = f.lines; mtime = c.now });
        derived = none;
      }
    ]

    -- fs.appendFileSync(journalPath, line), at the time t
    unfoldable pub append_line : ℕ → Line → Slot → Slot
    append_line t l s = record s {
      primary_journal =
          some (record { lines = value_or (file_lines s.primary_journal) [] ++ l ∷ []; mtime = t });
    }

    -- The entry that `appendEvent` writes for a normalized event.
    abbrev pub new_entry : Event → ℕ → Entry
    new_entry e n = record {
      seq = some n;
      ts = some (c.to_iso_string c.now);
      event = some e;
      own = e;
    }

    -- What `appendEvent` does up to the write of the line: the state that it goes on from.
    unfoldable pub prepare_append : String → Slot → Derived × Slot
    unfolding adopt_legacy read_state
    prepare_append id s = read_state id true (adopt_legacy s)

    -- What it does from there, with the state that it read.
    unfoldable pub finish_append : Event → Derived → Slot → Snapshot × Slot
    unfolding append_line persist
    finish_append e prior s =
        let en = new_entry e prior.next_seq in
        let next = apply_event c prior.snapshot en in
        (next, persist next (prior.next_seq + 1) (append_line c.now (entry en) s))

    unfoldable pub append_normalized : Event → Slot → Snapshot × Slot
    unfolding prepare_append finish_append
    append_normalized e s = let (prior, s') = prepare_append e.id s in finish_append e prior s'

    unfoldable pub append_event : Event → Option String → Slot → (Snapshot × Slot) ⊎ StoreError
    unfolding append_normalized safe_session_id normalize_event
    append_event e fallback s = elim (normalize_event e fallback) [
      | inr x ↦ inr x
      | inl n ↦ if safe_session_id n.id then inl (append_normalized n s) else inr invalid_session_id
    ]

    -- has(id), for a text that is a session id: any other is refused
    unfoldable pub has : Slot → Bool
    has s = is_some s.primary_journal || is_some s.legacy_journal

    abbrev pub is_completed : Snapshot → Bool
    is_completed s = has_text completed_session_phases s.phase

    -- getSnapshot; of the slot only the map changes.
    unfoldable pub read_snapshot : String → Bool → Slot → Option Snapshot × Slot
    unfolding read_state
    read_snapshot id include_completed s =
        let (d, s') = read_state id true s in
        (if not include_completed && is_completed d.snapshot then none else some d.snapshot, s')

    -- The tests of the id that stand before.
    unfoldable pub get_snapshot : String → Bool → Slot → (Option Snapshot × Slot) ⊎ StoreError
    unfolding read_snapshot safe_session_id
    get_snapshot id include_completed s =
        if str_eq id ""
        then inr session_id_required
        else if safe_session_id id
        then inl (read_snapshot id include_completed s)
        else inr invalid_session_id

    -- flush, for a session id: the state is read without the snapshot file, and written.
    unfoldable pub flush : String → Slot → Snapshot × Slot
    unfolding read_state persist
    flush id s =
        let (d, s') = read_state id false s in (d.snapshot, persist d.snapshot d.next_seq s')

    -- listActiveSessions: the sessions that have a journal, in the order of the listing.
    unfoldable pub list_active : List (String × Slot) → List Snapshot
    unfolding read_snapshot
    list_active [] = []
    list_active ((id, s) ∷ rest) =
        let found = if has s then (read_snapshot id false s).0 else none in
        let more = list_active rest in elim found [ none ↦ more | some snapshot ↦ snapshot ∷ more ]
