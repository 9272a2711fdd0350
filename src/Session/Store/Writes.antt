-- ===== src/Session/Store/Writes.antt =====
-- The writes of the store keep it coherent (live/session-store.mjs).
use mathlib.Core.Path.{subst}
use agent_bus.Session.{Clock, Event, Snapshot, base_snapshot}
use agent_bus.Session.Store.{
  Derived, JournalFile, Slot, SnapshotFile, adopt_legacy, file_lines, new_entry, readable_journal,
  finish_append, append_line, append_normalized, derive, file_size, flush, persist, prepare_append,
  read_state,
}
use agent_bus.Session.Store.Coherence.{
  IsCleanFile, IsCoherent, IsReplay, Covers-of_IsReplay, Covers, root_journal,
}
use agent_bus.Session.Journal.Replay.{
  IsStamped, rebuild-append, IsClean, IsCleanLine, rebuild-clean,
}
use agent_bus.Session.Journal.{Line, entry, rebuild, step_line, replay_lines}
use agent_bus.Shared.{
  Option, String, [], ap, arith, none, or_else, refl, some, true, truthy, truthy_number, value_or,
  ℕ, ◌++◌, ◌+◌, ◌∷◌, ◌≡◌, ◌≤◌, All-append, List, ◌∙◌, false,
}
use agent_bus.Session.Apply.{apply_event, entry_date}
use agent_bus.Session.Store.Reads.{Covers-derived, read_state-IsCoherent, read_state-SoundEntry}

module _ (bytes : Line → ℕ) (bytes_positive : (l : Line) → 1 ≤ bytes l) (c : Clock) where
  -- The text that the clock gives for now is one that `Date.parse` reads, as a time after 1970.
  abbrev pub IsDated : Type 0
  IsDated =
      (truthy (some (c.to_iso_string c.now)) ≡ true)
      × (truthy_number (c.parse_date (c.to_iso_string c.now)) ≡ true)

  pub new_entry-IsStamped : (e : Event) (n : ℕ) → IsDated → IsStamped c (new_entry bytes c e n)
  unfolding entry_date
  new_entry-IsStamped e n h = (h.0, rw (h.0) (h.1))

  -- After the adoption a session has a legacy journal only beside a primary one.
  abbrev pub IsAdopted : Slot → Type 0
  IsAdopted s = s.primary_journal ≡ none → s.legacy_journal ≡ none

  abbrev slot_of :
      Option JournalFile → Option JournalFile → Option SnapshotFile → Option Derived → Slot
  slot_of p l f d = record {
    primary_journal = p;
    legacy_journal = l;
    snapshot_file = f;
    derived = d;
  }

  adopt_parts :
      (id : String) (p l : Option JournalFile) (f : Option SnapshotFile) (d : Option Derived)
      → IsCoherent bytes bytes_positive c id (slot_of p l f d)
      → IsCoherent bytes bytes_positive c id (adopt_legacy bytes c (slot_of p l f d))
        × IsAdopted (adopt_legacy bytes c (slot_of p l f d))
        × (file_lines bytes (readable_journal (adopt_legacy bytes c (slot_of p l f d)))
            ≡ file_lines bytes (or_else p l))
  unfolding adopt_legacy
  adopt_parts id (some j) l f d h = (h, (λ e. cc), refl)
  adopt_parts id none none f d h = (h, (λ e. refl), refl)
  adopt_parts id none (some j) f d h = (
    record {
      clean_primary = h.clean_legacy;
      clean_legacy = h.clean_legacy;
      cached = λ x e. cc;
      filed = h.filed;
    },
    (λ e. cc),
    refl,
  )

  abbrev pub ReplayOf : String → List Line → Snapshot → ℕ → Type 0
  ReplayOf id ls snapshot n =
      (snapshot ≡ (rebuild c id (some ls)).snapshot) × (n ≡ (rebuild c id (some ls)).next_seq)

  -- The event that is appended to a journal, applied to the replay of that journal, gives the replay
  -- of the longer journal.
  pub appended-ReplayOf :
      (id : String) (ls : List Line) (snapshot : Snapshot) (n : ℕ) (e : Event)
      → IsClean c ls
      → IsDated
      → ReplayOf id ls snapshot n
      → ReplayOf id
          (ls ++ entry (new_entry bytes c e n) ∷ [])
          (apply_event c snapshot (new_entry bytes c e n))
          (n + 1)
  appended-ReplayOf id ls snapshot n e k t h =
      rw (rebuild-append c id ls (new_entry bytes c e n) k (new_entry-IsStamped e n t)) (
        unfold step_line in
        (ap (λ (s : Snapshot). apply_event c s (new_entry bytes c e n)) (h.0), omega (arith, h.1)))

  empty-ReplayOf : (id : String) → ReplayOf id [] (base_snapshot id) 1
  empty-ReplayOf id = rw (rebuild-clean c id [] tt) (unfold replay_lines in (refl, refl))

  appended_parts :
      (id : String) (p l : Option JournalFile) (snapshot : Snapshot) (n : ℕ) (e : Event)
      → (p ≡ none → l ≡ none)
      → IsCleanFile bytes bytes_positive c p
      → IsDated
      → IsReplay bytes bytes_positive c id (or_else p l) snapshot n
      → ReplayOf id
          (value_or (file_lines bytes p) [] ++ entry (new_entry bytes c e n) ∷ [])
          (apply_event c snapshot (new_entry bytes c e n))
          (n + 1)
  unfolding rebuild
  appended_parts id (some j) l snapshot n e a k t h =
      appended-ReplayOf id j.lines snapshot n e k t h
  appended_parts id none l snapshot n e a k t h =
      let (p, q) =
        subst (λ (o : Option JournalFile). IsReplay bytes bytes_positive c id o snapshot n) (a refl)
          h in
      appended-ReplayOf id [] snapshot n e tt t
        (p ∙ (empty-ReplayOf id).0, q ∙ (empty-ReplayOf id).1)

  clean_lines :
      (p : Option JournalFile) (e : Event) (n : ℕ)
      → IsCleanFile bytes bytes_positive c p
      → IsDated
      → IsClean c (value_or (file_lines bytes p) [] ++ entry (new_entry bytes c e n) ∷ [])
  clean_lines none e n k t = (new_entry-IsStamped e n t, tt)
  clean_lines (some f) e n k t =
      All-append (IsCleanLine c) f.lines _ k (new_entry-IsStamped e n t, tt)

  -- What `persist` writes is coherent if it is the replay of the journal.
  persist-IsCoherent :
      (id : String) (s : Slot) (snapshot : Snapshot) (n : ℕ)
      → IsCleanFile bytes bytes_positive c s.primary_journal
      → IsCleanFile bytes bytes_positive c s.legacy_journal
      → IsReplay bytes bytes_positive c id (readable_journal s) snapshot n
      → IsCoherent bytes bytes_positive c id (persist bytes c snapshot n s)
  unfolding persist
  persist-IsCoherent id s snapshot n p l r = record {
    clean_primary = p;
    clean_legacy = l;
    cached = λ d q.
        let same : derive bytes s snapshot n ≡ d = cc q in
        subst
          (λ (x : Derived).
            Covers bytes bytes_positive c id (root_journal s x.journal_path) x.size x.snapshot
              x.next_seq)
          same (Covers-derived bytes bytes_positive c id s (derive bytes s snapshot n) refl refl r);
    filed = λ f m q k i.
        let bytes_same : file_size bytes (readable_journal s) ≡ f.journal_bytes = ground arith in
        let snapshot_same : snapshot ≡ f.snapshot = ground arith in
        let seq_same : n ≡ m = ground arith in
        rw (← bytes_same, ← snapshot_same, ← seq_same)
          (Covers-of_IsReplay bytes bytes_positive c id (readable_journal s) snapshot n r);
  }

  -- From the state that a read gave, the append leaves a coherent store.
  pub finish_append-IsCoherent :
      (id : String) (s : Slot) (prior : Derived) (e : Event)
      → IsCoherent bytes bytes_positive c id s
      → IsAdopted s
      → IsDated
      → IsReplay bytes bytes_positive c id (readable_journal s) prior.snapshot prior.next_seq
      → IsCoherent bytes bytes_positive c id (finish_append bytes c e prior s).1
  unfolding finish_append
  finish_append-IsCoherent id s prior e h a t r =
      let en = new_entry bytes c e prior.next_seq in
      persist-IsCoherent id (append_line bytes c c.now (entry en) s)
        (apply_event c prior.snapshot en) (prior.next_seq + 1)
        (clean_lines s.primary_journal e prior.next_seq h.clean_primary t) h.clean_legacy
        (appended_parts id s.primary_journal s.legacy_journal prior.snapshot prior.next_seq e a
          h.clean_primary t r)

  -- flush keeps the store coherent.
  pub flush-IsCoherent :
      (id : String) (s : Slot)
      → IsCoherent bytes bytes_positive c id s
      → IsCoherent bytes bytes_positive c id (flush bytes c id s).1
  unfolding flush
  flush-IsCoherent id s h =
      let (p, q, _) = read_state-SoundEntry bytes bytes_positive c id false s h in
      persist-IsCoherent id (read_state bytes c id false s).1 _ _ h.clean_primary h.clean_legacy
        (p, q)

  -- appendEvent, on an event of the session, keeps the store coherent.
  pub append-IsCoherent :
      (s : Slot) (e : Event)
      → IsDated
      → IsCoherent bytes bytes_positive c e.id s
      → IsCoherent bytes bytes_positive c e.id (append_normalized bytes c e s).1
  unfolding append_normalized prepare_append
  append-IsCoherent s e t h =
      let (k, a, _) =
        adopt_parts e.id s.primary_journal s.legacy_journal s.snapshot_file s.derived h in
      let s' = adopt_legacy bytes c s in
      let (p, q, _) = read_state-SoundEntry bytes bytes_positive c e.id true s' k in
      finish_append-IsCoherent e.id (read_state bytes c e.id true s').1
        (read_state bytes c e.id true s').0 e
        (read_state-IsCoherent bytes bytes_positive c e.id true s' k) a t (p, q)
