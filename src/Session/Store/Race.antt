-- ===== src/Session/Store/Race.antt =====
-- What the store does when another process writes between its read of the journal and its own write
-- (live/session-store.mjs: `appendEvent` is no single step, and nothing locks the journal).
use agent_bus.Shared.{
  ==_iff, Bool, Option, String, [], arith, none, refl, some, true, value_or, ℕ, ◌++◌, ◌∷◌, ◌≡◌, ◌≤◌,
  List, ap, ◌∙◌,
}
use agent_bus.Session.{Clock, Event, Entry}
use agent_bus.Session.Store.{
  Derived, Slot, file_lines, finish_append, is_fresh, new_entry, read_state, same_number, size_of,
}
use agent_bus.Session.Journal.{Line, entry, rebuild}
use agent_bus.Session.Journal.Replay.{IsClean}
use agent_bus.Session.Store.Writes.{IsDated, appended-ReplayOf}

module _ (bytes : Line → ℕ) (bytes_positive : (l : Line) → 1 ≤ bytes l) (c : Clock) where
  same_number_refl : (o : Option ℕ) → same_number o o ≡ true
  same_number_refl none = refl
  same_number_refl (some n) = (==_iff n n).1 refl

  -- What an append has written is what the next read returns: the key of the map is taken from the
  -- file after the write, whatever the file holds by then.
  read-finish_append :
      (id : String) (allow : Bool) (s : Slot) (prior : Derived) (e : Event)
      → (read_state bytes c id allow (finish_append bytes c e prior s).1).0.snapshot
        ≡ (finish_append bytes c e prior s).0
  unfolding read_state finish_append is_fresh
  read-finish_append id allow s prior e = ground (
    arith,
    same_number_refl (
        some (
          size_of bytes (
            value_or (file_lines bytes s.primary_journal) []
            ++ entry (new_entry bytes c e prior.next_seq) ∷ []))),
    same_number_refl (some c.now),
  )

  -- If another process appends an entry to a clean journal between the read of an append and its
  -- write, at a time that `Date` can read back, the entry is lost to this process: the journal
  -- holds both entries, but the next read returns the replay of a journal that never had the other
  -- one.
  pub race_loses_entry :
      (id : String) (allow : Bool) (s : Slot) (prior : Derived) (e : Event) (ls : List Line)
      (lost : Entry)
      → IsClean c ls
      → IsDated bytes bytes_positive c
      → prior.snapshot ≡ (rebuild c id (some ls)).snapshot
      → prior.next_seq ≡ (rebuild c id (some ls)).next_seq
      → file_lines bytes s.primary_journal ≡ some (ls ++ entry lost ∷ [])
      → let done = (finish_append bytes c e prior s).1 in
        let added = entry (new_entry bytes c e prior.next_seq) in
        (file_lines bytes done.primary_journal ≡ some ((ls ++ entry lost ∷ []) ++ added ∷ []))
        × ((read_state bytes c id allow done).0.snapshot
            ≡ (rebuild c id (some (ls ++ added ∷ []))).snapshot)
  race_loses_entry id allow s prior e ls lost k t r q f = (
    unfold finish_append in
        ap
          (λ (o : Option (List Line)).
            some (value_or o [] ++ entry (new_entry bytes c e prior.next_seq) ∷ []))
          f,
    read-finish_append id allow s prior e
        ∙ (unfold finish_append in
            (appended-ReplayOf bytes bytes_positive c id ls prior.snapshot prior.next_seq e k t
              (r, q)).0),
  )
