-- ===== src/Examples/Checkpoints.antt =====
-- Checkpoints of a generation (live-server.mjs).
use agent_bus.Generation.{
  Done, claims_behind, detect_missed_generation_completion, missed_completion_from_snapshot,
  record_generation_checkpoint, result_file, variant_count_looks_behind,
}
use agent_bus.Session.{Entry, Event, Snapshot, base_snapshot}
use agent_bus.Shared.{String, [], none, refl, some, ◌≡◌}
use agent_bus.Vocabulary.{agent_phase, checkpoint}
use agent_bus.Session.Apply.{apply_event}
use agent_bus.Examples.{clock, event_of}
use agent_bus.Session.Handlers.{entry_event, fenced, is_closed}
use agent_bus.Generation.Progress.{record_generation_checkpoint-again, record_phases}
use agent_bus.Generation.Redelivery.{redelivery-apply_event}

abbrev finished : Snapshot
finished = record (base_snapshot "a1b2c3d4") {
  phase = "variants_ready";
  generation_completed_at = some 8;
  source_file = some "src/App.svelte";
}

abbrev lagging : Entry
lagging = record {
  seq = some 6;
  ts = some "t";
  event =
      some (record (event_of checkpoint) { phase = some "generating"; expected_variants = some 3 });
  own = event_of checkpoint;
}

abbrev progress : Event
progress = record (event_of checkpoint) {
  reason = some "variants_progress";
  arrived_variants = some 2;
  expected_variants = some 3;
}

abbrev phase_entry_of : String → Entry
phase_entry_of p = record {
  seq = some 6;
  ts = some "t";
  event = some (record (event_of agent_phase) { phase = some p });
  own = event_of agent_phase;
}

abbrev done_again : Done
done_again = record {
  id = "a1b2c3d4";
  file = "src/App.svelte";
  source_file = some "src/App.svelte";
  preview_file = none;
  preview_mode = none;
}

lagging-done :
    detect_missed_generation_completion (entry_event lagging) (some finished) ≡ some done_again
unfolding detect_missed_generation_completion claims_behind missed_completion_from_snapshot
    variant_count_looks_behind result_file is_closed fenced base_snapshot
lagging-done = refl

redelivery-apply_event_example :
    detect_missed_generation_completion
      (entry_event lagging)
      (some (apply_event clock finished lagging))
    ≡ some done_again
redelivery-apply_event_example =
    redelivery-apply_event clock finished lagging done_again refl refl refl lagging-done

record_generation_checkpoint-again_example :
    record_generation_checkpoint progress (
      some (
        record_phases clock phase_entry_of
          (record_generation_checkpoint progress (some finished))
          finished))
    ≡ []
record_generation_checkpoint-again_example =
    record_generation_checkpoint-again clock phase_entry_of progress finished (λ p. (refl, refl))
