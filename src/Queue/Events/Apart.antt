-- ===== src/Queue/Events/Apart.antt =====
-- The steps of the handler of POST /events of live-server.mjs, up to the queue, leave the other
-- sessions alone.
use agent_bus.Queue.Phases.{Site, journal, plain_event, put_appended, put_slot}
use agent_bus.Queue.Events.{
  Message, end_orphan, found_in, is_orphaned_discard, journal_phases, journal_progress,
  missed_completion, reached_phase, read_session, retire,
}
use agent_bus.Shared.{
  Bool, Bool-cases, List, Option, String, [], false, inl, inr, none, not, str_eq, true, ℕ, ◌&&◌,
  ◌||◌, ◌∷◌, ◌≡◌, ◌⊎◌,
}
use agent_bus.Session.{Clock, Event, Snapshot}
use agent_bus.Generation.{claims_behind, record_generation_checkpoint}
use agent_bus.Vocabulary.{accept, checkpoint, discard, discarded, type_eq}
use agent_bus.Session.Journal.{Line, StoreError}
use agent_bus.Session.Store.{Slot, append_event, get_snapshot}

-- The two hold the same for every session but the one with this id.
abbrev pub SameElsewhere : String → Site → Site → Type 0
SameElsewhere id a b = (x : String) → str_eq x id ≡ false → a.slots x ≡ b.slots x

pub put_slot-SameElsewhere :
    (id : String) (s : Slot) (a b : Site)
    → SameElsewhere id a b
    → SameElsewhere id (put_slot id s a) b
put_slot-SameElsewhere id s a b h x k = rw k (h x k)

put_appended-SameElsewhere :
    (id : String) (r : (Snapshot × Slot) ⊎ StoreError) (a b : Site)
    → SameElsewhere id a b
    → SameElsewhere id (put_appended id r a) b
put_appended-SameElsewhere id (inl (snapshot, slot)) a b h = put_slot-SameElsewhere id slot a b h
put_appended-SameElsewhere id (inr e) a b h = h

module _ (bytes : Line → ℕ) (c : Clock) (start : Site) where
  -- Every message of a session leaves what the start has of the others.
  abbrev pub Apart : String → Site → Type 0
  Apart id a = SameElsewhere id a start

  journal-Apart :
      (id : String) (e : Event) (a : Site) → Apart id a → Apart id (journal bytes c id e a)
  unfolding journal
  journal-Apart id e a h =
      put_appended-SameElsewhere id (append_event bytes c e none (a.slots id)) a start h

  found_in-Apart :
      (id : String) (r : (Option Snapshot × Slot) ⊎ StoreError) (a : Site)
      → Apart id a
      → Apart id (found_in bytes c id r a).1
  found_in-Apart id (inl (found, slot)) a h = put_slot-SameElsewhere id slot a start h
  found_in-Apart id (inr e) a h = h

  read_session-Apart :
      (id : String) (all : Bool) (a : Site)
      → Apart id a
      → Apart id (read_session bytes c id all a).1
  unfolding read_session
  read_session-Apart id all a h = found_in-Apart id (get_snapshot bytes c id all (a.slots id)) a h

  pub missed_completion-Apart :
      (e : Event) (a : Site) → Apart e.id a → Apart e.id (missed_completion bytes c e a).1
  unfolding missed_completion
  missed_completion-Apart e a h = elim (Bool-cases (claims_behind e)) [
    | inl k ↦ rw k (read_session-Apart e.id false a h)
    | inr k ↦ rw k h
  ]

  journal_phases-Apart :
      (e : Event) (ps : List String) (a : Site)
      → Apart e.id a
      → Apart e.id (journal_phases bytes c e ps a)
  journal_phases-Apart e [] a h = h
  journal_phases-Apart e (p ∷ ps) a h =
      journal_phases-Apart e ps (journal bytes c e.id (reached_phase c.now e p) a)
        (journal-Apart e.id (reached_phase c.now e p) a h)

  pub journal_progress-Apart :
      (e : Event) (a : Site) → Apart e.id a → Apart e.id (journal_progress bytes c e a)
  unfolding journal_progress
  journal_progress-Apart e a h =
      elim (Bool-cases (str_eq e.id "" || not (type_eq e.type checkpoint))) [
        | inl k ↦ rw k h
        | inr k ↦ rw k (
            journal_phases-Apart e
              (record_generation_checkpoint e (read_session bytes c e.id true a).0)
              (read_session bytes c e.id true a).1 (read_session-Apart e.id true a h))
      ]

  pub retire-Apart : (e : Event) (a : Site) → Apart e.id a → Apart e.id (retire bytes c e a)
  unfolding retire
  retire-Apart e a h = elim (Bool-cases (type_eq e.type accept || type_eq e.type discard)) [
    | inl k ↦ rw k h
    | inr k ↦ rw k h
  ]

  pub end_orphan-Apart :
      (m : Message) (a : Site) → Apart m.event.id a → Apart m.event.id (end_orphan bytes c m a)
  unfolding end_orphan
  end_orphan-Apart m a h = elim (Bool-cases (is_orphaned_discard m && not (str_eq m.event.id ""))) [
    | inl k ↦ rw k (journal-Apart m.event.id (plain_event discarded m.event.id) a h)
    | inr k ↦ rw k h
  ]
