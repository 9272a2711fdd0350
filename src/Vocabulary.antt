-- ===== src/Vocabulary.antt =====
-- .opencode/skills/impeccable/scripts/live/vocabulary.mjs: the words of the live protocol, that the
-- event validation, the session store and the helper server share.
use agent_bus.Shared.{String, Bool, List, [], ◌∷◌, any, str_eq, ℕ, ◌&&◌, ◌==◌}

-- The event types of CLIENT_EVENT_TYPES and JOURNAL_EVENT_TYPES; `other` is any other text.
pub data EventType : Type 0 where
  generate variant_plan detector_waivers agent_phase variants_ready agent_done : EventType
  variant_mounted variant_mount_failed checkpoint accept accept_intent : EventType
  manual_edit_apply steer steer_done carbonize_cleanup discard discarded : EventType
  complete agent_error exit prefetch manual_edits : EventType
  other : String → EventType

-- A number for each constructor; an `other` is a text that no other constructor stands for.
abbrev pub type_number : EventType → ℕ
type_number generate = 0
type_number variant_plan = 1
type_number detector_waivers = 2
type_number agent_phase = 3
type_number variants_ready = 4
type_number agent_done = 5
type_number variant_mounted = 6
type_number variant_mount_failed = 7
type_number checkpoint = 8
type_number accept = 9
type_number accept_intent = 10
type_number manual_edit_apply = 11
type_number steer = 12
type_number steer_done = 13
type_number carbonize_cleanup = 14
type_number discard = 15
type_number discarded = 16
type_number complete = 17
type_number agent_error = 18
type_number exit = 19
type_number prefetch = 20
type_number manual_edits = 21
type_number (other s) = 22

abbrev pub other_text : EventType → String
other_text (other s) = s
other_text _ = ""

-- `===` on event types
abbrev pub type_eq : EventType → EventType → Bool
type_eq s t = type_number s == type_number t && str_eq (other_text s) (other_text t)

abbrev pub client_event_types : List EventType
client_event_types =
    generate ∷ accept ∷ discard ∷ checkpoint ∷ agent_phase ∷ variant_mounted ∷ variant_mount_failed
    ∷ exit ∷ prefetch ∷ manual_edits ∷ steer ∷ carbonize_cleanup ∷ []

abbrev pub journal_event_types : List EventType
journal_event_types =
    generate ∷ variant_plan ∷ detector_waivers ∷ agent_phase ∷ variants_ready ∷ agent_done
    ∷ variant_mounted ∷ variant_mount_failed ∷ checkpoint ∷ accept ∷ accept_intent
    ∷ manual_edit_apply ∷ steer ∷ steer_done ∷ carbonize_cleanup ∷ discard ∷ discarded ∷ complete
    ∷ agent_error ∷ []

abbrev pub visual_actions : List String
visual_actions =
    "impeccable" ∷ "bolder" ∷ "quieter" ∷ "distill" ∷ "polish" ∷ "typeset" ∷ "colorize" ∷ "layout"
    ∷ "adapt" ∷ "animate" ∷ "delight" ∷ "overdrive" ∷ []

abbrev pub agent_phases : List String
agent_phases =
    "picked_up" ∷ "scaffolding" ∷ "source_ready" ∷ "scaffold_fallback" ∷ "generation_ready"
    ∷ "first_reviewable" ∷ "second_reviewable" ∷ "all_variants_ready" ∷ []

abbrev pub completed_session_phases : List String
completed_session_phases = "completed" ∷ "discarded" ∷ []

abbrev pub generation_fenced_session_phases : List String
generation_fenced_session_phases =
    "accept_requested" ∷ "discard_requested" ∷ "carbonize_required" ∷ "completed" ∷ "discarded" ∷ []

abbrev pub variant_progress_checkpoint_reasons : List String
variant_progress_checkpoint_reasons = "variants_progress" ∷ "variants_ready" ∷ []

-- `set.has(s)` for a set of texts
abbrev pub has_text : List String → String → Bool
has_text set s = any (λ t. str_eq t s) set
