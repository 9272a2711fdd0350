-- ===== src/Session/Store/Later.antt =====
-- What an append computes from the state that it has read is what a replay of the journal finds at any
-- later time (live/session-store.mjs, appendEvent and rebuildSnapshotFromJournal).
use agent_bus.Session.Store.{
  Derived, finish_append, Slot, append_line, file_lines, new_entry, persist,
}
use agent_bus.Shared.{
  All-append, List, String, [], ap, length, some, value_or, ℕ, ◌++◌, ◌+◌, ◌∙◌, ◌∷◌, ◌≡◌, ◌≤◌, arith,
  sym,
}
use agent_bus.Session.{Clock, Event}
use agent_bus.Session.Journal.Replay.{IsClean, IsCleanLine, rebuild-append, rebuild-now}
use agent_bus.Session.Store.Writes.{IsDated, new_entry-IsStamped}
use agent_bus.Session.Journal.{Line, Rebuilt, rebuild, step_line, entry, bump_seq}

module _ (bytes : Line → ℕ) (bytes_positive : (l : Line) → 1 ≤ bytes l) (c : Clock) where
  -- The result of a replay at another time.
  abbrev pub rebuilt_at : ℕ → String → Slot → Rebuilt
  rebuilt_at t id s = rebuild (record c { now = t }) id (file_lines bytes s.primary_journal)

  replayed_entry :
      (t : ℕ) (id : String) (ls : List Line) (e : Event) (r : Rebuilt)
      → IsClean c ls
      → IsDated bytes bytes_positive c
      → rebuild c id (some ls) ≡ r
      → rebuild (record c { now = t }) id (some (ls ++ entry (new_entry bytes c e r.next_seq) ∷ []))
        ≡ step_line c (length ls) r (entry (new_entry bytes c e r.next_seq))
  replayed_entry t id ls e r k d h =
      let en = new_entry bytes c e r.next_seq in
      let stamped = new_entry-IsStamped bytes bytes_positive c e r.next_seq d in
      rebuild-now c t id (ls ++ entry en ∷ [])
        (All-append (IsCleanLine c) ls (entry en ∷ []) k (stamped, tt))
      ∙ rebuild-append c id ls en k stamped
      ∙ ap (λ x. step_line c (length ls) x (entry en)) h

  one_more : (n : ℕ) → bump_seq (some n) n ≡ n + 1
  unfolding bump_seq
  one_more n = omega arith

  -- An append reads the state of a journal that has no corrupt line and no entry without its date, and
  -- writes one entry behind it at a time that a date can be written for. A replay of the file at any
  -- time then gives the snapshot that the append has returned, and the next number is one more.
  pub finish_append-rebuild :
      (t : ℕ) (id : String) (e : Event) (prior : Derived) (s : Slot)
      → IsClean c (value_or (file_lines bytes s.primary_journal) [])
      → IsDated bytes bytes_positive c
      → prior.snapshot
        ≡ (rebuild c id (some (value_or (file_lines bytes s.primary_journal) []))).snapshot
      → prior.next_seq
        ≡ (rebuild c id (some (value_or (file_lines bytes s.primary_journal) []))).next_seq
      → ((rebuilt_at t id (finish_append bytes c e prior s).1).snapshot
          ≡ (finish_append bytes c e prior s).0)
        × ((rebuilt_at t id (finish_append bytes c e prior s).1).next_seq ≡ prior.next_seq + 1)
  unfolding finish_append append_line persist step_line
  finish_append-rebuild t id e prior s k d h j =
      let ls = value_or (file_lines bytes s.primary_journal) [] in
      let r = rebuild c id (some ls) in
      let read : Rebuilt = record {
        snapshot = prior.snapshot;
        diagnostics = r.diagnostics;
        next_seq = prior.next_seq;
      } in
      let same : r ≡ read =
        λ i. record { snapshot = sym h i; diagnostics = r.diagnostics; next_seq = sym j i } in
      let later = replayed_entry t id ls e read k d same in
      (
        ap (λ (x : Rebuilt). x.snapshot) later,
        ap (λ (x : Rebuilt). x.next_seq) later ∙ one_more prior.next_seq,
      )
