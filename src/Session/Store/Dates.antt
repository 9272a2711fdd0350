-- ===== src/Session/Store/Dates.antt =====
-- The coherence of a store does not turn on the time at which it is looked at.
use mathlib.Core.Path.{subst}
use agent_bus.Shared.{
  All-append_left, List, Option, String, [], ap, none, or_else, some, sym, ℕ, ◌∙◌, ◌∷◌, ◌≤◌,
}
use agent_bus.Session.{Clock, Snapshot}
use agent_bus.Session.Store.Coherence.{Covers, IsCleanFile, IsCoherent, root_journal}
use agent_bus.Session.Journal.Replay.{IsClean, IsCleanLine, rebuild-now}
use agent_bus.Session.Store.{JournalFile, Root, Slot, legacy, primary, readable_journal}
use agent_bus.Session.Journal.{Line, Rebuilt, blank, corrupt, entry}
use agent_bus.Session.Apply.{entry_date}

-- The same `Date` functions at another time.
abbrev pub at : Clock → ℕ → Clock
at c t = record c { now = t }

module _ (bytes : Line → ℕ) (bytes_positive : (l : Line) → 1 ≤ bytes l) (c : Clock) where
  Covers-now :
      (t : ℕ) (id : String) (file : Option JournalFile) (size : Option ℕ) (snapshot : Snapshot)
      (n : ℕ)
      → IsCleanFile bytes bytes_positive c file
      → Covers bytes bytes_positive c id file size snapshot n
      → Covers bytes bytes_positive (at c t) id file size snapshot n
  Covers-now t id none size snapshot n k h = h
  Covers-now t id (some f) size snapshot n k h = λ j e.
      let (pre, rest, lines, len, p, q) = h j e in
      let clean : IsClean c pre =
        All-append_left (IsCleanLine c) pre rest (subst (IsClean c) lines k) in
      let same = sym (rebuild-now c t id pre clean) in
      (
        pre,
        rest,
        lines,
        len,
        p ∙ ap (λ (r : Rebuilt). r.snapshot) same,
        q ∙ ap (λ (r : Rebuilt). r.next_seq) same,
      )

  clean_root :
      (s : Slot) (r : Root)
      → IsCleanFile bytes bytes_positive c s.primary_journal
      → IsCleanFile bytes bytes_positive c s.legacy_journal
      → IsCleanFile bytes bytes_positive c (root_journal s r)
  clean_root s primary p l = p
  clean_root s legacy p l = l

  clean_or_else :
      (p l : Option JournalFile)
      → IsCleanFile bytes bytes_positive c p
      → IsCleanFile bytes bytes_positive c l
      → IsCleanFile bytes bytes_positive c (or_else p l)
  clean_or_else none l p q = q
  clean_or_else (some f) l p q = p

  clean-now :
      (t : ℕ) (f : Option JournalFile)
      → IsCleanFile bytes bytes_positive c f
      → IsCleanFile bytes bytes_positive (at c t) f
  unfolding entry_date
  clean-now t none h = tt
  clean-now t (some f) h = All-map_lines f.lines h
    where
      All-map_lines : (ls : List Line) → IsClean c ls → IsClean (at c t) ls
      All-map_lines [] h = tt
      All-map_lines (entry en ∷ ls) h = (h.0, All-map_lines ls h.1)
      All-map_lines (blank ∷ ls) h = (tt, All-map_lines ls h.1)
      All-map_lines (corrupt m ∷ ls) h = absurd h.0

  -- Coherence does not turn on the time.
  pub IsCoherent-now :
      (t : ℕ) (id : String) (s : Slot)
      → IsCoherent bytes bytes_positive c id s
      → IsCoherent bytes bytes_positive (at c t) id s
  IsCoherent-now t id s h = record {
    clean_primary = clean-now t s.primary_journal h.clean_primary;
    clean_legacy = clean-now t s.legacy_journal h.clean_legacy;
    cached = λ d e.
        Covers-now t id (root_journal s d.journal_path) d.size d.snapshot d.next_seq
          (clean_root s d.journal_path h.clean_primary h.clean_legacy) (h.cached d e);
    filed = λ f n e q i.
        Covers-now t id (readable_journal s) f.journal_bytes f.snapshot n
          (clean_or_else s.primary_journal s.legacy_journal h.clean_primary h.clean_legacy)
          (h.filed f n e q i);
  }
