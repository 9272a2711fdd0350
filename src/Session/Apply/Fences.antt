-- ===== src/Session/Apply/Fences.antt =====
-- What the fence of a canceled or finished generation keeps out (live/session-store.mjs).
use agent_bus.Shared.{arith, Bool, true, false, ◌≡◌}
use agent_bus.Session.{Clock, Snapshot, Entry, Event}
use agent_bus.Vocabulary.{
  EventType, agent_done, checkpoint, detector_waivers, variant_plan, variants_ready,
}
use agent_bus.Session.Apply.{apply_event, dispatch, copy_snapshot}
use agent_bus.Session.Handlers.{is_carbonize_handoff, is_closed, entry_event}

abbrev pub is_generation_event : EventType → Bool
is_generation_event variant_plan = true
is_generation_event detector_waivers = true
is_generation_event variants_ready = true
is_generation_event agent_done = true
is_generation_event checkpoint = true
is_generation_event _ = false

module _ (c : Clock) where
  dispatch_fenced :
      (t : EventType) (en : Entry) (e : Event) (next : Snapshot)
      → is_generation_event t ≡ true
      → is_closed next ≡ true
      → is_carbonize_handoff e next ≡ false
      → record (dispatch c t en e next) { diagnostics = next.diagnostics } ≡ next
  unfolding dispatch
  dispatch_fenced variant_plan en e next g h k = ground arith
  dispatch_fenced detector_waivers en e next g h k = ground arith
  dispatch_fenced variants_ready en e next g h k = ground arith
  dispatch_fenced agent_done en e next g h k = ground arith
  dispatch_fenced checkpoint en e next g h k = ground arith
  dispatch_fenced _ en e next g h k = cc

  -- In a session that is canceled or in a fenced phase, a late generation event (a plan, waivers,
  -- a completion that is not the carbonize handoff of an accept, a checkpoint) changes nothing but
  -- the diagnostics: all else is the snapshot as every event copies it.
  pub apply_event_fenced :
      (s : Snapshot) (en : Entry)
      → is_closed s ≡ true
      → is_generation_event (entry_event en).type ≡ true
      → is_carbonize_handoff (entry_event en) s ≡ false
      → record (apply_event c s en) { diagnostics = s.diagnostics } ≡ copy_snapshot c s en
  unfolding apply_event copy_snapshot is_closed is_carbonize_handoff
  apply_event_fenced s en h g k =
      dispatch_fenced (entry_event en).type en (entry_event en) (copy_snapshot c s en) g h k
