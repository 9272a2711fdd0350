-- ===== src/Session/Store/Coherence.antt =====
-- The map and the snapshot file of a session never disagree with its journal: what a read returns
-- is the replay of the whole journal (live/session-store.mjs).
use mathlib.Core.List.{append-nil, append_assoc}
use agent_bus.Shared.{
  ==_iff, List, Option, String, [], ap, arith, none, refl, some, sym, true, value_or, ℕ, ◌++◌, ◌+◌,
  ◌∙◌, ◌∷◌, ◌≡◌, ◌≤◌,
}
use agent_bus.Session.{Clock, Snapshot, base_snapshot}
use agent_bus.Session.Store.{
  Derived, JournalFile, Root, Slot, SnapshotFile, file_lines, file_size, legacy, primary,
  readable_journal, readable_root, root_eq, same_number, size_of,
}
use agent_bus.Session.Journal.Replay.{IsClean}
use agent_bus.Session.Journal.{Line, rebuild}

abbrev pub root_journal : Slot → Root → Option JournalFile
root_journal s primary = s.primary_journal
root_journal s legacy = s.legacy_journal

pub root_eq→eq : (a b : Root) → root_eq a b ≡ true → a ≡ b
root_eq→eq primary primary h = refl
root_eq→eq primary legacy h = cc
root_eq→eq legacy primary h = cc
root_eq→eq legacy legacy h = refl

pub readable-root_journal : (s : Slot) → root_journal s (readable_root s) ≡ readable_journal s
readable-root_journal s = ground arith

module _ (bytes : Line → ℕ) (bytes_positive : (l : Line) → 1 ≤ bytes l) (c : Clock) where
  -- A state derived from a part of the journal that was the whole of it once, with its size then.
  abbrev pub Covers : String → Option JournalFile → Option ℕ → Snapshot → ℕ → Type 0
  Covers id none size snapshot n = (size ≡ none) × (snapshot ≡ base_snapshot id) × (n ≡ 1)
  Covers id (some f) size snapshot n =
      (k : ℕ)
      → size ≡ some k
      → (pre : List Line) × (rest : List Line) × (f.lines ≡ pre ++ rest)
        × (size_of bytes pre ≡ k)
        × (snapshot ≡ (rebuild c id (some pre)).snapshot)
        × (n ≡ (rebuild c id (some pre)).next_seq)

  abbrev pub IsCleanFile : Option JournalFile → Type 0
  IsCleanFile none = Unit
  IsCleanFile (some f) = IsClean c f.lines

  pub record IsCoherent (id : String) (s : Slot) : Type 0 where
    pub clean_primary : IsCleanFile s.primary_journal
    pub clean_legacy : IsCleanFile s.legacy_journal
    pub cached :
        (d : Derived)
        → s.derived ≡ some d
        → Covers id (root_journal s d.journal_path) d.size d.snapshot d.next_seq
    pub filed :
        (f : SnapshotFile) (n : ℕ)
        → s.snapshot_file ≡ some f
        → f.next_seq ≡ some n
        → f.snapshot.id ≡ id
        → Covers id (readable_journal s) f.journal_bytes f.snapshot n

  size_of-append :
      (xs ys : List Line) → size_of bytes (xs ++ ys) ≡ size_of bytes xs + size_of bytes ys
  unfolding size_of
  size_of-append [] ys = omega arith
  size_of-append (x ∷ xs) ys = omega (arith, size_of-append xs ys)

  nil_of_size : (xs : List Line) → size_of bytes xs ≡ 0 → xs ≡ []
  unfolding size_of
  nil_of_size [] h = refl
  nil_of_size (x ∷ xs) h = absurd (omega (arith, bytes_positive x))

  -- A file that only grows, and has the size that it had, has the lines that it had.
  same_of_size :
      (pre rest : List Line) → size_of bytes (pre ++ rest) ≡ size_of bytes pre → pre ++ rest ≡ pre
  same_of_size pre rest h =
      ap (λ (r : List Line). pre ++ r) (nil_of_size rest (omega (arith, size_of-append pre rest)))
      ∙ append-nil pre

  abbrev pub IsReplay : String → Option JournalFile → Snapshot → ℕ → Type 0
  IsReplay id file snapshot n =
      (snapshot ≡ (rebuild c id (file_lines bytes file)).snapshot)
      × (n ≡ (rebuild c id (file_lines bytes file)).next_seq)

  -- What covers a part of the journal and has the size of the journal is its replay.
  pub IsReplay-of_Covers :
      (id : String) (file : Option JournalFile) (size : Option ℕ) (snapshot : Snapshot) (n : ℕ)
      → Covers id file size snapshot n
      → same_number size (file_size bytes file) ≡ true
      → IsReplay id file snapshot n
  unfolding rebuild
  IsReplay-of_Covers id none size snapshot n h e = (h.1, h.2)
  IsReplay-of_Covers id (some f) (some k) snapshot n h e =
      let (pre, rest, lines, len, p, q) = h k refl in
      let same : f.lines ≡ pre =
        lines
        ∙ same_of_size pre rest (
            ap (size_of bytes) (sym lines)
            ∙ sym ((==_iff k (size_of bytes f.lines)).0 e)
            ∙ sym len) in
      rw same (p, q)
  IsReplay-of_Covers id (some f) none snapshot n h e = cc

  -- What is derived from the whole journal covers it.
  pub Covers-of_IsReplay :
      (id : String) (file : Option JournalFile) (snapshot : Snapshot) (n : ℕ)
      → IsReplay id file snapshot n
      → Covers id file (file_size bytes file) snapshot n
  unfolding rebuild
  Covers-of_IsReplay id none snapshot n h = (refl, h.0, h.1)
  Covers-of_IsReplay id (some f) snapshot n h =
      λ k e. (f.lines, [], sym (append-nil f.lines), cc e, h.0, h.1)

  -- And goes on covering it when a line is appended.
  pub Covers-append :
      (id : String) (file : Option JournalFile) (t : ℕ) (l : Line) (size : Option ℕ)
      (snapshot : Snapshot) (n : ℕ)
      → Covers id file size snapshot n
      → Covers id
          (some (record { lines = value_or (file_lines bytes file) [] ++ l ∷ []; mtime = t }))
          size
          snapshot
          n
  Covers-append id none t l size snapshot n h = λ k e. cc (h.0)
  Covers-append id (some f) t l size snapshot n h = λ k e.
      let (pre, rest, lines, len, p, q) = h k e in
      (
        pre,
        rest ++ l ∷ [],
        ap (λ (ls : List Line). ls ++ l ∷ []) lines ∙ append_assoc pre rest (l ∷ []),
        len,
        p,
        q,
      )
