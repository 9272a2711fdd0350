-- ===== src/Session/Handlers.antt =====
-- live/session-store.mjs: the cases of the switch of `applyEvent` that read no clock, and their
-- helpers. `next` is the copy of the snapshot that a case changes.
use agent_bus.Shared.{
  ℕ, String, Bool, false, not, ◌&&◌, ◌||◌, Option, none, some, List, [], ◌∷◌, ◌++◌, nat, str_eq,
  or_else, value_or, is_some, truthy, truthy_number, or_null, any, last_n, includes, sort_numbers,
  leb, if◌then◌else◌,
}
use agent_bus.Vocabulary.{
  EventType, generate, agent_done, type_eq, has_text, generation_fenced_session_phases,
}
use agent_bus.Session.{
  Event, Entry, Domain, publication, browser, Diagnostic, late_generation_event_ignored,
  malformed_mount_ack, checkpoint_after_terminal_ignored, stale_checkpoint_ignored, agent_error,
  RenderState, mounted, failed, pending, MountFailure, Timing, Artifact, Snapshot,
}

abbrev pub mount_failure_history : ℕ
mount_failure_history = 5

-- GENERATION_FENCED_PHASES.has(phase)
unfoldable pub fenced : String → Bool
fenced phase = has_text generation_fenced_session_phases phase

-- `generationCanceled || GENERATION_FENCED_PHASES.has(phase)`
unfoldable pub is_closed : Snapshot → Bool
is_closed s = s.generation_canceled || fenced s.phase

unfoldable pub derive_render_state : Snapshot → Option RenderState
derive_render_state s = elim s.mounted_variants [
  | _ ∷ _ ↦ some mounted
  | [] ↦ elim s.mount_failures [
    | _ ∷ _ ↦ some failed
    | [] ↦ if truthy_number s.generation_completed_at then some pending else none
  ]
]

unfoldable pub to_pending_event : Event → Event
to_pending_event e = record e { token = none }

unfoldable pub upsert_artifact : List Artifact → Artifact → List Artifact
upsert_artifact artifacts a =
    if any (λ x. str_eq x.path a.path && str_eq x.type a.type) artifacts
    then artifacts
    else artifacts ++ a ∷ []

-- `timings[phase] = t`: an object keeps the place of a key that it has.
unfoldable pub put_timing : String → Timing → List (String × Timing) → List (String × Timing)
put_timing k t [] = (k, t) ∷ []
put_timing k t ((j, u) ∷ rest) =
    let more = put_timing k t rest in if str_eq j k then (j, t) ∷ rest else (j, u) ∷ more

unfoldable pub set_pending : Entry → Event → Snapshot → Snapshot
unfolding to_pending_event
set_pending en e next = record next {
  pending_event_seq = or_else en.seq next.pending_event_seq;
  pending_event = some (to_pending_event e);
}

unfoldable pub push_diagnostic : Diagnostic → Snapshot → Snapshot
push_diagnostic d next = record next { diagnostics = next.diagnostics ++ d ∷ [] }

unfoldable pub on_generate : Entry → Event → Snapshot → Snapshot
unfolding set_pending upsert_artifact
on_generate en e next = record (set_pending en e next) {
  phase = "generate_requested";
  page_url = or_else e.page_url next.page_url;
  expected_variants = value_or e.count next.expected_variants;
  variant_plan = none;
  mounted_variants = [];
  mount_failures = [];
  render_state = none;
  annotation_artifacts =
      if truthy e.screenshot_path
      then upsert_artifact next.annotation_artifacts
          (record { type = "screenshot"; path = value_or e.screenshot_path "" })
      else next.annotation_artifacts;
}

unfoldable pub on_variant_plan : Event → Snapshot → Snapshot
unfolding is_closed
on_variant_plan e next =
    if is_closed next then next else record next { variant_plan = or_else e.plan next.variant_plan }

unfoldable pub on_detector_waivers : Event → Snapshot → Snapshot
unfolding is_closed
on_detector_waivers e next =
    if is_closed next
    then next
    else record next { detector_waivers = next.detector_waivers ++ value_or e.waivers [] }

-- The only late completion that a closed session takes: the carbonize handoff of its accept.
unfoldable pub is_carbonize_handoff : Event → Snapshot → Bool
is_carbonize_handoff e next =
    type_eq e.type agent_done && (e.carbonize && str_eq next.phase "accept_requested")

-- `Number.isInteger(variant) && variant >= 1`, with the variant.
unfoldable pub mount_variant : Event → Option ℕ
mount_variant e = elim e.variant [
  | none ↦ none
  | some (nat n) ↦ if leb 1 n then some n else none
  | some _ ↦ none
]

unfoldable pub add_mounted : ℕ → Snapshot → Snapshot
unfolding derive_render_state
add_mounted v next =
    let s = record next {
      mounted_variants =
          if includes v next.mounted_variants
          then next.mounted_variants
          else sort_numbers (next.mounted_variants ++ v ∷ []);
    } in
    record s { render_state = derive_render_state s }

unfoldable pub on_variant_mounted : Event → Snapshot → Snapshot
unfolding mount_variant add_mounted push_diagnostic
on_variant_mounted e next = elim (mount_variant e) [
  | none ↦ push_diagnostic (malformed_mount_ack e.type e.variant) next
  | some v ↦ add_mounted v next
]

unfoldable pub add_mount_failure : MountFailure → Event → Snapshot → Snapshot
unfolding derive_render_state to_pending_event
add_mount_failure f e next =
    let s = record next {
      mount_failures = last_n mount_failure_history (next.mount_failures ++ f ∷ []);
    } in
    record s {
      render_state = derive_render_state s;
      pending_event =
          if is_some s.pending_event then s.pending_event else some (to_pending_event e);
    }

unfoldable pub revision_domain : Event → Domain
revision_domain e =
    if str_eq (value_or e.revision_domain "") "publication"
      || (str_eq (value_or e.reason "") "variants_progress" && not (truthy e.owner))
    then publication
    else browser

-- `next[revisionField]`: `base_snapshot` sets all three counters, so they are never null.
unfoldable pub current_revision : Domain → Snapshot → ℕ
current_revision publication next = next.publication_checkpoint_revision
current_revision browser next = next.browser_checkpoint_revision

unfoldable pub apply_revision : Domain → Event → Snapshot → Snapshot
apply_revision publication e next = record next {
  publication_checkpoint_revision = value_or e.revision next.publication_checkpoint_revision;
}
apply_revision browser e next = record next {
  browser_checkpoint_revision = value_or e.revision next.browser_checkpoint_revision;
  checkpoint_revision = value_or e.revision next.checkpoint_revision;
  active_owner = or_else e.owner next.active_owner;
  visible_variant = or_else e.visible_variant next.visible_variant;
  param_values = value_or e.param_values next.param_values;
}

unfoldable pub apply_checkpoint : Domain → Event → Snapshot → Snapshot
unfolding apply_revision
apply_checkpoint d e next = record (apply_revision d e next) {
  phase = value_or e.phase next.phase;
  arrived_variants = value_or e.arrived_variants next.arrived_variants;
  source_file = or_else e.source_file next.source_file;
  preview_file = or_else e.preview_file next.preview_file;
  preview_mode = or_else e.preview_mode next.preview_mode;
}

unfoldable pub on_checkpoint : Event → Snapshot → Snapshot
unfolding is_closed revision_domain current_revision apply_checkpoint push_diagnostic
on_checkpoint e next =
    let d = revision_domain e in
    if is_closed next
    then push_diagnostic (checkpoint_after_terminal_ignored e.phase e.revision) next
    else if leb (current_revision d next) (value_or e.revision 0)
    then apply_checkpoint d e next
    else push_diagnostic (stale_checkpoint_ignored e.revision d) next

unfoldable pub on_page_request : String → Entry → Event → Snapshot → Snapshot
unfolding set_pending
on_page_request phase en e next = record (set_pending en e next) {
  phase = phase;
  page_url = or_else e.page_url next.page_url;
}

unfoldable pub on_carbonize_cleanup : Entry → Event → Snapshot → Snapshot
unfolding set_pending
on_carbonize_cleanup en e next = record (set_pending en e next) {
  phase = "carbonize_cleanup_requested";
  source_file = or_else e.file next.source_file;
}

-- What `steer_done` and `complete` share.
unfoldable pub finish : String → Event → Snapshot → Snapshot
finish phase e next = record next {
  phase = phase;
  source_file = or_else e.source_file (or_else e.file next.source_file);
  preview_file = or_else e.preview_file next.preview_file;
  preview_mode = or_else e.preview_mode next.preview_mode;
  pending_event_seq = none;
  pending_event = none;
}

unfoldable pub on_steer_done : Event → Snapshot → Snapshot
unfolding finish
on_steer_done e next = record (finish "steer_done" e next) {
  message = or_else e.message next.message;
}

unfoldable pub on_discarded : Snapshot → Snapshot
on_discarded next = record next {
  phase = "discarded";
  pending_event_seq = none;
  pending_event = none;
}

abbrev pub is_generate_source : Option EventType → Bool
is_generate_source none = false
is_generate_source (some t) = type_eq t generate

unfoldable pub on_agent_error : Event → Snapshot → Snapshot
unfolding push_diagnostic
on_agent_error e next =
    if next.generation_canceled && is_generate_source e.source_event_type
    then push_diagnostic (late_generation_event_ignored e.type next.phase) next
    else push_diagnostic (agent_error (value_or (or_null e.message) "unknown agent error"))
        (record next { phase = "agent_error"; pending_event_seq = none; pending_event = none })

-- `entry.event || entry`
abbrev pub entry_event : Entry → Event
entry_event en = value_or en.event en.own
