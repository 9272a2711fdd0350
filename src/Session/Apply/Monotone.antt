-- ===== src/Session/Apply/Monotone.antt =====
-- What only grows in a session, whatever the events: the cancellation, the completion mark, the
-- checkpoint revisions and the diagnostics (live/session-store.mjs).
use agent_bus.Session.{Clock, Entry, Event, Snapshot}
use agent_bus.Vocabulary.{EventType, generate}
use agent_bus.Session.Apply.{apply_event, copy_snapshot, dispatch}
use agent_bus.Shared.{arith, is_some, true, ◌≡◌, ◌≤◌}
use agent_bus.Session.Handlers.{entry_event}

module _ (c : Clock) where
  dispatch_canceled :
      (t : EventType) (en : Entry) (e : Event) (next : Snapshot)
      → next.generation_canceled ≡ true
      → (dispatch c t en e next).generation_canceled ≡ true
  unfolding dispatch
  dispatch_canceled generate en e next h = h
  dispatch_canceled _ en e next h = ground arith

  -- Once a session is canceled no event takes that back.
  pub canceled-apply_event :
      (s : Snapshot) (en : Entry)
      → s.generation_canceled ≡ true
      → (apply_event c s en).generation_canceled ≡ true
  unfolding apply_event copy_snapshot
  canceled-apply_event s en h =
      dispatch_canceled (entry_event en).type en (entry_event en) (copy_snapshot c s en) h

  dispatch_completed :
      (t : EventType) (en : Entry) (e : Event) (next : Snapshot)
      → is_some next.generation_completed_at ≡ true
      → is_some (dispatch c t en e next).generation_completed_at ≡ true
  unfolding dispatch
  dispatch_completed generate en e next h = h
  dispatch_completed _ en e next h = ground arith

  pub completed-apply_event :
      (s : Snapshot) (en : Entry)
      → is_some s.generation_completed_at ≡ true
      → is_some (apply_event c s en).generation_completed_at ≡ true
  unfolding apply_event copy_snapshot
  completed-apply_event s en h =
      dispatch_completed (entry_event en).type en (entry_event en) (copy_snapshot c s en) h

  dispatch_revisions :
      (t : EventType) (en : Entry) (e : Event) (next : Snapshot)
      → (next.browser_checkpoint_revision ≤ (dispatch c t en e next).browser_checkpoint_revision)
        × (next.publication_checkpoint_revision
            ≤ (dispatch c t en e next).publication_checkpoint_revision)
  unfolding dispatch
  dispatch_revisions generate en e next = omega arith
  dispatch_revisions _ en e next = ground arith

  pub revisions-apply_event :
      (s : Snapshot) (en : Entry)
      → (s.browser_checkpoint_revision ≤ (apply_event c s en).browser_checkpoint_revision)
        × (s.publication_checkpoint_revision ≤ (apply_event c s en).publication_checkpoint_revision)
  unfolding apply_event copy_snapshot
  revisions-apply_event s en =
      dispatch_revisions (entry_event en).type en (entry_event en) (copy_snapshot c s en)
