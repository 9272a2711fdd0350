-- ===== src/Session/Store/Reads.antt =====
-- What a read of a session returns, in a coherent store (live/session-store.mjs).
use mathlib.Core.Path.{subst, subst₂}
use agent_bus.Shared.{
  Bool, Option, Option-cases, String, ap, arith, eq_iff, false, inl, inr, none, refl, some, true, ℕ,
  ◌∙◌, ◌≡◌, ◌≤◌, Bool-cases, sym,
}
use agent_bus.Session.{Clock, Snapshot}
use agent_bus.Session.Store.Coherence.{
  Covers, IsCoherent, IsReplay, IsReplay-of_Covers, readable-root_journal, root_eq→eq, root_journal,
  Covers-of_IsReplay,
}
use agent_bus.Session.Store.{
  Derived, JournalFile, Slot, SnapshotFile, derive_anew, file_size, hydrate, is_fresh,
  readable_journal, readable_root, root_eq, same_number, size_of, cached_or, file_lines, read_state,
}
use agent_bus.Session.Journal.{Line, rebuild}

module _ (bytes : Line → ℕ) (bytes_positive : (l : Line) → 1 ≤ bytes l) (c : Clock) where
  abbrev pub Coherent : String → Slot → Type 0
  Coherent = IsCoherent bytes bytes_positive c

  abbrev pub Replayed : String → Slot → Derived → Type 0
  Replayed id s d = IsReplay bytes bytes_positive c id (readable_journal s) d.snapshot d.next_seq

  hydrate-IsReplay :
      (id : String) (allow : Bool) (file : Option JournalFile) (cache : Option SnapshotFile)
      (snapshot : Snapshot) (n : ℕ)
      → ((f : SnapshotFile) (m : ℕ)
          → cache ≡ some f
          → f.next_seq ≡ some m
          → f.snapshot.id ≡ id
          → Covers bytes bytes_positive c id file f.journal_bytes f.snapshot m)
      → hydrate bytes id allow file cache ≡ some (snapshot, n)
      → IsReplay bytes bytes_positive c id file snapshot n
  unfolding hydrate
  hydrate-IsReplay id allow none cache snapshot n h e = cc
  hydrate-IsReplay id false (some j) cache snapshot n h e = cc
  hydrate-IsReplay id true (some j) none snapshot n h e = cc
  hydrate-IsReplay id true (some j) (some f) snapshot n h e =
      let facts : (same_number f.journal_bytes (some (size_of bytes j.lines)) ≡ true)
          × (f.next_seq ≡ some n)
          × (f.snapshot.id ≡ id)
          × (f.snapshot ≡ snapshot) =
        ground (arith, eq_iff f.snapshot.id id) in
      rw (← facts.3) (
        IsReplay-of_Covers bytes bytes_positive c id (some j) f.journal_bytes f.snapshot n
          (h f n refl facts.1 facts.2) facts.0)

  derive_anew-Replayed :
      (id : String) (allow : Bool) (s : Slot)
      → Coherent id s
      → Replayed id s (derive_anew bytes c id allow s)
  unfolding derive_anew
  derive_anew-Replayed id allow s h =
      elim (Option-cases (hydrate bytes id allow (readable_journal s) s.snapshot_file)) [
        | inl e ↦ rw (e, derive_anew) (refl, refl)
        | inr (found, e) ↦
            rw (e, derive_anew)
              (hydrate-IsReplay id allow (readable_journal s) s.snapshot_file found.0 found.1
                h.filed e)
      ]

  fresh-Replayed :
      (id : String) (s : Slot) (d : Derived)
      → Coherent id s
      → s.derived ≡ some d
      → is_fresh bytes s d ≡ true
      → Replayed id s d
  unfolding is_fresh
  fresh-Replayed id s d h e k =
      let facts : (root_eq d.journal_path (readable_root s) ≡ true)
          × (same_number d.size (file_size bytes (readable_journal s)) ≡ true) =
        ground arith in
      let path : root_journal s d.journal_path ≡ readable_journal s =
        ap (root_journal s) (root_eq→eq d.journal_path (readable_root s) facts.0)
        ∙ readable-root_journal s in
      IsReplay-of_Covers bytes bytes_positive c id (readable_journal s) d.size d.snapshot d.next_seq
        (subst
          (λ (j : Option JournalFile).
            Covers bytes bytes_positive c id j d.size d.snapshot d.next_seq)
          path (h.cached d e))
        facts.1

  derive_anew-path :
      (id : String) (allow : Bool) (s : Slot)
      → ((derive_anew bytes c id allow s).journal_path ≡ readable_root s)
        × ((derive_anew bytes c id allow s).size ≡ file_size bytes (readable_journal s))
  unfolding derive_anew
  derive_anew-path id allow s =
      elim (Option-cases (hydrate bytes id allow (readable_journal s) s.snapshot_file)) [
        | inl e ↦ rw (e, derive_anew) (refl, refl)
        | inr (found, e) ↦ rw (e, derive_anew) (refl, refl)
      ]

  -- An entry that is the replay of the journal as it is now, under the key that it has now.
  pub Covers-derived :
      (id : String) (s : Slot) (d : Derived)
      → d.journal_path ≡ readable_root s
      → d.size ≡ file_size bytes (readable_journal s)
      → Replayed id s d
      → Covers bytes bytes_positive c id
          (root_journal s d.journal_path)
          d.size
          d.snapshot
          d.next_seq
  Covers-derived id s d p q h =
      subst₂
        (λ (j : Option JournalFile) (k : Option ℕ).
          Covers bytes bytes_positive c id j k d.snapshot d.next_seq)
        (sym (ap (root_journal s) p ∙ readable-root_journal s)) (sym q)
        (Covers-of_IsReplay bytes bytes_positive c id (readable_journal s) d.snapshot d.next_seq h)

  abbrev pub SoundEntry : String → Slot → Derived → Type 0
  SoundEntry id s d =
      (d.snapshot ≡ (rebuild c id (file_lines bytes (readable_journal s))).snapshot)
      × (d.next_seq ≡ (rebuild c id (file_lines bytes (readable_journal s))).next_seq)
      × Covers bytes bytes_positive c id (root_journal s d.journal_path) d.size d.snapshot
          d.next_seq

  derive_anew-SoundEntry :
      (id : String) (allow : Bool) (s : Slot)
      → Coherent id s
      → SoundEntry id s (derive_anew bytes c id allow s)
  derive_anew-SoundEntry id allow s h =
      let r = derive_anew-Replayed id allow s h in
      let p = derive_anew-path id allow s in
      (r.0, r.1, Covers-derived id s (derive_anew bytes c id allow s) p.0 p.1 r)

  cached_or-SoundEntry :
      (id : String) (allow : Bool) (s : Slot) (o : Option Derived)
      → s.derived ≡ o
      → Coherent id s
      → SoundEntry id s (cached_or bytes c o s (derive_anew bytes c id allow s))
  cached_or-SoundEntry id allow s none e h = derive_anew-SoundEntry id allow s h
  cached_or-SoundEntry id allow s (some d) e h = elim (Bool-cases (is_fresh bytes s d)) [
    | inl k ↦ let r = fresh-Replayed id s d h e k in rw k (r.0, r.1, h.cached d e)
    | inr k ↦ rw k (derive_anew-SoundEntry id allow s h)
  ]

  -- A read returns the replay of the journal, whether it comes from the map, from the snapshot file
  -- or from the journal itself.
  pub read_state-SoundEntry :
      (id : String) (allow : Bool) (s : Slot)
      → Coherent id s
      → SoundEntry id s (read_state bytes c id allow s).0
  unfolding read_state
  read_state-SoundEntry id allow s h = cached_or-SoundEntry id allow s s.derived refl h

  pub read_state-IsCoherent :
      (id : String) (allow : Bool) (s : Slot)
      → Coherent id s
      → Coherent id (read_state bytes c id allow s).1
  unfolding read_state
  read_state-IsCoherent id allow s h = record {
    clean_primary = h.clean_primary;
    clean_legacy = h.clean_legacy;
    cached = λ d e.
        let same : (read_state bytes c id allow s).0 ≡ d = cc e in
        subst
          (λ (x : Derived).
            Covers bytes bytes_positive c id (root_journal s x.journal_path) x.size x.snapshot
              x.next_seq)
          same (read_state-SoundEntry id allow s h).2;
    filed = h.filed;
  }
