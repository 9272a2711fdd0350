-- ===== src/Examples/Sessions.antt =====
-- Replays of a short journal (live/session-store.mjs).
use agent_bus.Session.Journal.Invariants.{
  Grows, SeqsBelow, rebuild-Grows, rebuild-IsRendered, rebuild-SeqsBelow,
}
use agent_bus.Session.Apply.Render.{IsRendered}
use agent_bus.Session.Journal.{Line, corrupt, rebuild, entry}
use agent_bus.Shared.{List, [], refl, some, true, ◌++◌, ◌∷◌, ◌≡◌}
use agent_bus.Session.{Snapshot, base_snapshot}
use agent_bus.Vocabulary.{accept, generate, variants_ready}
use agent_bus.Session.Apply.{apply_event, copy_snapshot}
use agent_bus.Session.Apply.Fences.{apply_event_fenced}
use agent_bus.Examples.{clock, entry_of}
use agent_bus.Session.Handlers.{fenced, is_carbonize_handoff, is_closed}

abbrev two_lines : List Line
two_lines = entry (entry_of 1 generate) ∷ corrupt "Unexpected end of JSON input" ∷ []

abbrev accepted_session : Snapshot
accepted_session = record (base_snapshot "a1b2c3d4") {
  phase = "accept_requested";
  generation_canceled = true;
}

rebuild-Grows_example :
    Grows
      (rebuild clock "a1b2c3d4" (some two_lines)).snapshot
      (rebuild clock "a1b2c3d4" (some (two_lines ++ entry (entry_of 2 accept) ∷ []))).snapshot
rebuild-Grows_example = rebuild-Grows clock "a1b2c3d4" two_lines (entry (entry_of 2 accept) ∷ [])

rebuild-IsRendered_example : IsRendered (rebuild clock "a1b2c3d4" (some two_lines)).snapshot
rebuild-IsRendered_example = rebuild-IsRendered clock "a1b2c3d4" (some two_lines)

rebuild-SeqsBelow_example : SeqsBelow (rebuild clock "a1b2c3d4" (some two_lines)).next_seq two_lines
rebuild-SeqsBelow_example = rebuild-SeqsBelow clock "a1b2c3d4" two_lines

apply_event_fenced_example :
    record (apply_event clock accepted_session (entry_of 5 variants_ready)) { diagnostics = [] }
    ≡ copy_snapshot clock accepted_session (entry_of 5 variants_ready)
unfolding base_snapshot
apply_event_fenced_example =
    apply_event_fenced clock accepted_session (entry_of 5 variants_ready)
      (unfold is_closed fenced in refl) refl (unfold is_carbonize_handoff in refl)
