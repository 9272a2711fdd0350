-- ===== src/Session/Journal/Replay.antt =====
-- The replay of a journal, line by line: what it keeps, and that it goes on where it stopped.
use mathlib.Core.List.{append-nil}
use agent_bus.Shared.{
  All, List, ap, arith, refl, true, truthy, truthy_number, ℕ, ◌∙◌, ◌≡◌, All-append, String, [],
  length, some, sym, ◌++◌, ◌+◌, ◌∷◌,
}
use agent_bus.Session.{Clock, Entry, Event, Snapshot, Diagnostic}
use agent_bus.Vocabulary.{EventType, generate}
use agent_bus.Session.Journal.{
  Line, blank, corrupt, entry, Rebuilt, rebuild, rebuilt_base, replay_lines, with_diagnostics,
  step_line,
}
use agent_bus.Session.Apply.{apply_event, copy_snapshot, dispatch, entry_date, event_time}
use agent_bus.Session.Handlers.{entry_event}

module _ (c : Clock) where
  -- An entry with a date: `appendEvent` writes no other.
  abbrev pub IsStamped : Entry → Type 0
  IsStamped en = (truthy en.ts ≡ true) × (truthy_number (entry_date c en) ≡ true)

  abbrev pub IsCleanLine : Line → Type 0
  IsCleanLine (entry en) = IsStamped en
  IsCleanLine blank = Unit
  IsCleanLine (corrupt m) = ⊥

  -- No line is corrupt, and every entry has its date.
  abbrev pub IsClean : List Line → Type 0
  IsClean lines = All IsCleanLine lines

  event_time-now :
      (t : ℕ) (en : Entry) (e : Event)
      → IsStamped en
      → event_time (record c { now = t }) en e ≡ event_time c en e
  unfolding event_time entry_date
  event_time-now t en e h = ground arith

  copy_snapshot-now :
      (t : ℕ) (s : Snapshot) (en : Entry)
      → IsStamped en
      → copy_snapshot (record c { now = t }) s en ≡ copy_snapshot c s en
  unfolding copy_snapshot
  copy_snapshot-now t s en h = rw (h.0)

  dispatch-now :
      (t : ℕ) (k : EventType) (en : Entry) (e : Event) (next : Snapshot)
      → IsStamped en
      → dispatch (record c { now = t }) k en e next ≡ dispatch c k en e next
  unfolding dispatch entry_date
  dispatch-now t generate en e next h = refl
  dispatch-now t _ en e next h = ground (arith, event_time-now t en e h)

  -- The clock does not enter the replay of a stamped entry.
  pub apply_event-now :
      (t : ℕ) (s : Snapshot) (en : Entry)
      → IsStamped en
      → apply_event (record c { now = t }) s en ≡ apply_event c s en
  unfolding apply_event
  apply_event-now t s en h =
      dispatch-now t (entry_event en).type en (entry_event en)
        (copy_snapshot (record c { now = t }) s en) h
      ∙ ap (dispatch c (entry_event en).type en (entry_event en)) (copy_snapshot-now t s en h)

  -- A property that every event keeps holds after the replay of any lines.
  pub replay_lines-keeps {κ} :
      (P : Snapshot → Type κ) (step : (s : Snapshot) (en : Entry) → P s → P (apply_event c s en))
      (i : ℕ) (r : Rebuilt) (ls : List Line)
      → P r.snapshot
      → P (replay_lines c i r ls).snapshot
  unfolding replay_lines
  replay_lines-keeps P step i r [] h = h
  replay_lines-keeps P step i r (entry en ∷ ls) h =
      replay_lines-keeps P step (i + 1) _ ls (step r.snapshot en h)
  replay_lines-keeps P step i r (blank ∷ ls) h = replay_lines-keeps P step (i + 1) r ls h
  replay_lines-keeps P step i r (corrupt m ∷ ls) h = replay_lines-keeps P step (i + 1) _ ls h

  pub replay_lines-append :
      (i : ℕ) (r : Rebuilt) (xs ys : List Line)
      → replay_lines c i r (xs ++ ys) ≡ replay_lines c (i + length xs) (replay_lines c i r xs) ys
  unfolding replay_lines
  replay_lines-append i r [] ys = ap (λ (k : ℕ). replay_lines c k r ys) (omega arith)
  replay_lines-append i r (l ∷ xs) ys =
      let r' = step_line c i r l in
      replay_lines-append (i + 1) r' xs ys
      ∙ ap (λ (k : ℕ). replay_lines c k (replay_lines c (i + 1) r' xs) ys) (omega arith)

  replay_lines-now :
      (t : ℕ) (i : ℕ) (r : Rebuilt) (ls : List Line)
      → IsClean ls
      → replay_lines (record c { now = t }) i r ls ≡ replay_lines c i r ls
  unfolding replay_lines
  replay_lines-now t i r [] h = refl
  replay_lines-now t i r (entry en ∷ ls) h =
      rw (apply_event-now t r.snapshot en h.0) (replay_lines-now t (i + 1) _ ls h.1)
  replay_lines-now t i r (blank ∷ ls) h = replay_lines-now t (i + 1) r ls h.1
  replay_lines-now t i r (corrupt m ∷ ls) h = absurd h.0

  -- The time of the replay does not matter to a clean journal.
  pub rebuild-now :
      (t : ℕ) (id : String) (ls : List Line)
      → IsClean ls
      → rebuild (record c { now = t }) id (some ls) ≡ rebuild c id (some ls)
  unfolding rebuild
  rebuild-now t id ls h = ap with_diagnostics (replay_lines-now t 0 (rebuilt_base id) ls h)

  clean-diagnostics :
      (i : ℕ) (r : Rebuilt) (ls : List Line)
      → IsClean ls
      → (replay_lines c i r ls).diagnostics ≡ r.diagnostics
  unfolding replay_lines
  clean-diagnostics i r [] h = refl
  clean-diagnostics i r (entry en ∷ ls) h = clean-diagnostics (i + 1) _ ls h.1
  clean-diagnostics i r (blank ∷ ls) h = clean-diagnostics (i + 1) r ls h.1
  clean-diagnostics i r (corrupt m ∷ ls) h = absurd h.0

  with_no_diagnostics : (r : Rebuilt) → r.diagnostics ≡ [] → with_diagnostics r ≡ r
  with_no_diagnostics r h =
      ap
        (λ (ds : List Diagnostic). record r {
          snapshot = record r.snapshot { diagnostics = r.snapshot.diagnostics ++ ds };
        })
        h
      ∙ ap
          (λ (ds : List Diagnostic). record r { snapshot = record r.snapshot { diagnostics = ds } })
          (append-nil r.snapshot.diagnostics)

  pub rebuild-clean :
      (id : String) (ls : List Line)
      → IsClean ls
      → rebuild c id (some ls) ≡ replay_lines c 0 (rebuilt_base id) ls
  unfolding rebuild
  rebuild-clean id ls h =
      with_no_diagnostics (replay_lines c 0 (rebuilt_base id) ls)
        (clean-diagnostics 0 (rebuilt_base id) ls h)

  -- If no line of a journal is corrupt and every entry has a date, a further entry that has a date
  -- is one more event on the replayed snapshot.
  pub rebuild-append :
      (id : String) (ls : List Line) (en : Entry)
      → IsClean ls
      → IsStamped en
      → rebuild c id (some (ls ++ entry en ∷ []))
        ≡ step_line c (length ls) (rebuild c id (some ls)) (entry en)
  unfolding replay_lines
  rebuild-append id ls en h k =
      rebuild-clean id (ls ++ entry en ∷ []) (All-append IsCleanLine ls (entry en ∷ []) h (k, tt))
      ∙ replay_lines-append 0 (rebuilt_base id) ls (entry en ∷ [])
      ∙ ap (λ (r : Rebuilt). step_line c (length ls) r (entry en)) (sym (rebuild-clean id ls h))
