-- ===== src/Examples/Edits.antt =====
-- A Save that is staged on a buffer with an operation (live/manual-edits-buffer.mjs).
use agent_bus.Shared.{
  Fields, List, String, [], false, filter, if◌then◌else◌, none, refl, some, str_eq, ◌∷◌, ◌≡◌,
}
use agent_bus.Edits.{Edit, Op, entries_of, read_buffer, stage_entry, stage_ops}
use agent_bus.Edits.Staging.{merge_all, stage_entry-keeps_original, stage_entry-ops_at}
use agent_bus.Edits.Keys.{ops_at}

abbrev op_of : String → String → String → Op
op_of ref original new = record {
  ref = ref;
  original_text = original;
  new_text = some new;
  deleted = false;
  evidence = Fields.end;
}

abbrev edit_of : String → List Op → Edit
edit_of id ops = record { id = id; page_url = "/"; element = none; ops = ops; staged_at = "then" }

abbrev buffered : List Edit
buffered = edit_of "e1" (op_of "h1" "Old" "Newer" ∷ []) ∷ []

abbrev saved : Edit
saved = edit_of "e2" (op_of "h1" "Newer" "Newest" ∷ op_of "p" "Text" "Word" ∷ [])

abbrev staged : List Edit
staged = stage_ops "now" saved buffered saved.ops

stage_entry-ops_at_example : ops_at "/" "h1" (read_buffer (entries_of staged)) ≡ (
    if str_eq "/" "/"
    then merge_all
        (filter (λ o. str_eq o.ref "h1") saved.ops)
        (ops_at "/" "h1" (read_buffer (entries_of buffered)))
    else ops_at "/" "h1" (read_buffer (entries_of buffered)))
stage_entry-ops_at_example =
    stage_entry-ops_at "now" saved (entries_of buffered) (entries_of staged) "/" "h1"
      (unfold stage_entry in refl)

stage_entry-keeps_original_example :
    (y : Op) × (ops_at "/" "h1" (read_buffer (entries_of staged)) ≡ y ∷ [])
    × (y.original_text ≡ "Old")
unfolding read_buffer
stage_entry-keeps_original_example =
    stage_entry-keeps_original "now" saved (entries_of buffered) (entries_of staged) "/" "h1"
      (op_of "h1" "Old" "Newer") [] (unfold stage_entry in refl) refl
