-- ===== src/Generation.antt =====
-- live-server.mjs: what the server makes of a browser's checkpoint of a generation. The snapshot is
-- what getSnapshot gives, `none` for null and for an error.
pub mod Redelivery
pub mod Progress
use agent_bus.Shared.{
  Bool, List, Option, String, [], false, if◌then◌else◌, leb, ltb, none, not, or_null, some, str_eq,
  true, truthy, truthy_number, value_or, ℕ, ◌&&◌, ◌++◌, ◌==◌, ◌||◌, ◌∷◌,
}
use agent_bus.Session.{Event, Snapshot, Timing}
use agent_bus.Vocabulary.{checkpoint, has_text, type_eq, variant_progress_checkpoint_reasons}
use agent_bus.Session.Handlers.{is_closed}

-- The `done` message that is sent again.
pub record Done : Type 0 where
  pub id : String
  pub file : String
  pub source_file : Option String
  pub preview_file : Option String
  pub preview_mode : Option String

-- The counts of an event are numbers here; `Number(x) || 0` of a missing one is 0.
unfoldable pub variant_count_looks_behind : Option ℕ → Option ℕ → Bool
variant_count_looks_behind arrived expected =
    value_or arrived 0 == 0
    || (not (value_or expected 0 == 0) && ltb (value_or arrived 0) (value_or expected 0))

-- `snapshot.sourceFile || snapshot.previewFile`
unfoldable pub result_file : Snapshot → Option String
result_file s = if truthy s.source_file then s.source_file else or_null s.preview_file

unfoldable pub missed_completion_from_snapshot : Option Snapshot → Option Done
unfolding is_closed result_file
missed_completion_from_snapshot none = none
missed_completion_from_snapshot (some s) =
    if str_eq s.id "" || not (truthy_number s.generation_completed_at) || is_closed s
    then none
    else elim (result_file s) [
      | none ↦ none
      | some file ↦ some (record {
        id = s.id;
        file = file;
        source_file = or_null s.source_file;
        preview_file = or_null s.preview_file;
        preview_mode = or_null s.preview_mode;
      })
    ]

-- The guards of detectMissedGenerationCompletion.
unfoldable pub claims_behind : Event → Bool
unfolding variant_count_looks_behind
claims_behind e =
    not (str_eq e.id "")
    && type_eq e.type checkpoint
    && str_eq (value_or e.phase "") "generating"
    && variant_count_looks_behind e.arrived_variants e.expected_variants

unfoldable pub detect_missed_generation_completion : Event → Option Snapshot → Option Done
unfolding claims_behind missed_completion_from_snapshot
detect_missed_generation_completion e s =
    if claims_behind e then missed_completion_from_snapshot s else none

-- The keys of `generationTimings`: every value is an object.
unfoldable pub has_timing : String → List (String × Timing) → Bool
has_timing phase [] = false
has_timing phase ((k, t) ∷ ts) =
    let rest = has_timing phase ts in if str_eq k phase then true else rest

unfoldable pub generation_is_fenced : Option Snapshot → Bool
generation_is_fenced none = false
generation_is_fenced (some s) = s.generation_canceled

unfoldable pub generation_phase_already_recorded : String → Option Snapshot → Bool
unfolding has_timing
generation_phase_already_recorded phase none = false
generation_phase_already_recorded phase (some s) = has_timing phase s.generation_timings

-- A checkpoint that reports progress: one that gets past the guards of recordGenerationCheckpoint.
unfoldable pub is_progress : Event → Option Snapshot → Bool
unfolding generation_is_fenced
is_progress e s =
    not (str_eq e.id "")
    && type_eq e.type checkpoint
    && not (generation_is_fenced s)
    && has_text variant_progress_checkpoint_reasons (value_or e.reason "")
    && not (value_or e.arrived_variants 0 == 0)
    && not (value_or e.expected_variants 0 == 0)

abbrev pub record_if : Bool → String → List String
record_if true phase = phase ∷ []
record_if false phase = []

-- The phases that recordGenerationCheckpoint records, in their order. Each is recorded before the
-- next test, which is about another phase. Their broadcast is not modelled.
unfoldable pub record_generation_checkpoint : Event → Option Snapshot → List String
unfolding is_progress generation_phase_already_recorded
record_generation_checkpoint e s =
    let arrived = value_or e.arrived_variants 0 in
    let expected = value_or e.expected_variants 0 in
    if is_progress e s
    then record_if (not (generation_phase_already_recorded "first_reviewable" s)) "first_reviewable"
      ++ record_if
          (leb 2 arrived
            && leb 3 expected
            && not (generation_phase_already_recorded "second_reviewable" s))
          "second_reviewable"
      ++ record_if
          (leb expected arrived && not (generation_phase_already_recorded "all_variants_ready" s))
          "all_variants_ready"
    else []
