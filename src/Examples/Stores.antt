-- ===== src/Examples/Stores.antt =====
-- Calls of two processes on a store that starts with no files (live/session-store.mjs).
use agent_bus.Session.Store.{
  flush, Derived, Slot, primary, append_normalized, file_lines, finish_append, new_entry,
  read_snapshot, read_state, readable_journal, derive,
}
use agent_bus.Session.Journal.{Line, rebuild, entry, blank}
use agent_bus.Shared.{List, [], arith, none, some, ℕ, ◌++◌, ◌∷◌, ◌≤◌, false, refl, true, ◌≡◌, ◌+◌}
use agent_bus.Session.Store.Processes.{
  World, fresh_world, Calls, after, fresh-IsCoherentWorld, get_snapshot-replay, view, answer, next,
  here, append, write,
}
use agent_bus.Vocabulary.{accept, generate, checkpoint}
use agent_bus.Examples.{clock, entry_of, event_of}
use agent_bus.Session.Apply.{entry_date}
use agent_bus.Session.Store.Race.{race_loses_entry}
use agent_bus.Session.Store.Dates.{at}
use agent_bus.Session.Store.Later.{finish_append-rebuild, rebuilt_at}

abbrev pub line_bytes : Line → ℕ
line_bytes l = 10

pub line_bytes_positive : (l : Line) → 1 ≤ line_bytes l
line_bytes_positive l = omega arith

abbrev pub fresh : World line_bytes line_bytes_positive clock
fresh = fresh_world line_bytes line_bytes_positive clock

abbrev first_lines : List Line
first_lines = entry (entry_of 1 generate) ∷ []

abbrev first_prior : Derived
first_prior = record {
  snapshot = (rebuild clock "a1b2c3d4" (some first_lines)).snapshot;
  next_seq = (rebuild clock "a1b2c3d4" (some first_lines)).next_seq;
  journal_path = primary;
  size = some 10;
  mtime = some 9;
}

abbrev raced_slot : Slot
raced_slot = record {
  primary_journal =
      some (record { lines = first_lines ++ entry (entry_of 2 accept) ∷ []; mtime = 9 });
  legacy_journal = none;
  snapshot_file = none;
  derived = none;
}

two-Calls : Calls line_bytes line_bytes_positive clock "a1b2c3d4" fresh (
    after line_bytes line_bytes_positive clock
      (after line_bytes line_bytes_positive clock fresh 1
        (append_normalized line_bytes
          (at clock 3)
          (event_of generate)
          (view line_bytes line_bytes_positive clock fresh 1)).1)
      2
      (flush line_bytes (at clock 4) "a1b2c3d4" (
        view line_bytes line_bytes_positive clock
          (after line_bytes line_bytes_positive clock fresh 1
            (append_normalized line_bytes
              (at clock 3)
              (event_of generate)
              (view line_bytes line_bytes_positive clock fresh 1)).1)
          2)).1)
two-Calls = next (next here (append 1 3 (event_of generate) refl (refl, refl))) (write 2 4)

get_snapshot-replay_example :
    let v =
      after line_bytes line_bytes_positive clock
        (after line_bytes line_bytes_positive clock fresh 1
          (append_normalized line_bytes
            (at clock 3)
            (event_of generate)
            (view line_bytes line_bytes_positive clock fresh 1)).1)
        2
        (flush line_bytes (at clock 4) "a1b2c3d4" (
          view line_bytes line_bytes_positive clock
            (after line_bytes line_bytes_positive clock fresh 1
              (append_normalized line_bytes
                (at clock 3)
                (event_of generate)
                (view line_bytes line_bytes_positive clock fresh 1)).1)
            2)).1 in
    (read_snapshot line_bytes clock "a1b2c3d4" false
      (view line_bytes line_bytes_positive clock v 1)).0
    ≡ answer line_bytes line_bytes_positive clock false
        (rebuild clock "a1b2c3d4" (file_lines line_bytes (readable_journal v.slot))).snapshot
get_snapshot-replay_example =
    get_snapshot-replay line_bytes line_bytes_positive clock "a1b2c3d4" 1 false two-Calls
      (fresh-IsCoherentWorld line_bytes line_bytes_positive clock "a1b2c3d4")

race_loses_entry_example :
    let done = (finish_append line_bytes clock (event_of checkpoint) first_prior raced_slot).1 in
    let added = entry (new_entry line_bytes clock (event_of checkpoint) first_prior.next_seq) in
    (file_lines line_bytes done.primary_journal
      ≡ some ((first_lines ++ entry (entry_of 2 accept) ∷ []) ++ added ∷ []))
    × ((read_state line_bytes clock "a1b2c3d4" true done).0.snapshot
        ≡ (rebuild clock "a1b2c3d4" (some (first_lines ++ added ∷ []))).snapshot)
race_loses_entry_example =
    race_loses_entry line_bytes line_bytes_positive clock "a1b2c3d4" true raced_slot first_prior
      (event_of checkpoint) first_lines (entry_of 2 accept) ((refl, unfold entry_date in refl), tt)
      (refl, refl) refl refl refl

-- An accept is appended to a journal with a generate, and the journal is replayed at time 40.
abbrev clean_lines : List Line
clean_lines = entry (new_entry line_bytes clock (event_of generate) 1) ∷ blank ∷ []

abbrev clean_slot : Slot
clean_slot = record {
  primary_journal = some (record { lines = clean_lines; mtime = 1 });
  legacy_journal = none;
  snapshot_file = none;
  derived = none;
}

abbrev read_before : Derived
read_before =
    derive line_bytes clean_slot (rebuild clock "a1b2c3d4" (some clean_lines)).snapshot
      (rebuild clock "a1b2c3d4" (some clean_lines)).next_seq

finish_append-rebuild_example :
    ((rebuilt_at line_bytes line_bytes_positive clock 40 "a1b2c3d4"
        (finish_append line_bytes clock (event_of accept) read_before clean_slot).1).snapshot
      ≡ (finish_append line_bytes clock (event_of accept) read_before clean_slot).0)
    × ((rebuilt_at line_bytes line_bytes_positive clock 40 "a1b2c3d4"
          (finish_append line_bytes clock (event_of accept) read_before clean_slot).1).next_seq
        ≡ read_before.next_seq + 1)
finish_append-rebuild_example =
    finish_append-rebuild line_bytes line_bytes_positive clock 40 "a1b2c3d4" (event_of accept)
      read_before clean_slot ((refl, unfold entry_date in refl), (tt, tt)) (refl, refl) refl refl
