-- ===== src/Session/Apply.antt =====
-- live/session-store.mjs: `applyEvent`, one function for each case of the switch. Those that read
-- no clock are in Handlers.
pub mod Fences
pub mod Monotone
pub mod Render
pub mod Diagnostics
use agent_bus.Shared.{
  ℕ, String, true, not, ◌&&◌, Option, none, some, [], ◌∷◌, ◌++◌, or_else, value_or, truthy, or_null,
  number_or_null, value_or_null, ◌==◌, if◌then◌else◌,
}
use agent_bus.Vocabulary.{
  EventType, generate, variant_plan, detector_waivers, agent_phase, variants_ready, agent_done,
  variant_mounted, variant_mount_failed, checkpoint, accept, accept_intent, manual_edit_apply,
  steer, steer_done, carbonize_cleanup, discard, discarded, complete, agent_error,
}
use agent_bus.Session.{
  Event, Entry, late_generation_event_ignored, carbonize_cleanup_required, malformed_mount_ack,
  unknown_event_type, Snapshot, Clock,
}
use agent_bus.Session.Handlers.{
  set_pending, push_diagnostic, on_generate, on_variant_plan, on_detector_waivers,
  is_carbonize_handoff, mount_variant, on_variant_mounted, add_mount_failure, on_checkpoint,
  on_page_request, on_carbonize_cleanup, finish, on_steer_done, on_discarded, on_agent_error,
  entry_event, is_closed, derive_render_state, put_timing,
}

module _ (c : Clock) where
  -- `Date.parse(entry.ts || '')`; the parse of the empty text is NaN.
  unfoldable pub entry_date : Entry → Option ℕ
  entry_date en = if truthy en.ts then c.parse_date (value_or en.ts "") else none

  -- event.at ?? (Date.parse(entry.ts || '') || Date.now())
  unfoldable pub event_time : Entry → Event → ℕ
  unfolding entry_date
  event_time en e = value_or e.at (value_or (number_or_null (entry_date en)) c.now)

  -- The copy that `applyEvent` starts from.
  unfoldable pub copy_snapshot : Snapshot → Entry → Snapshot
  copy_snapshot s en = record s {
    variant_plan = value_or_null s.variant_plan;
    updated_at = some (if truthy en.ts then value_or en.ts "" else c.to_iso_string c.now);
  }

  unfoldable pub on_agent_phase : Entry → Event → Snapshot → Snapshot
  unfolding entry_date put_timing
  on_agent_phase en e next = record next {
    generation_phase = or_else e.phase next.generation_phase;
    generation_timings =
        if truthy e.phase
        then put_timing (value_or e.phase "")
            (record {
              at = or_else e.at (number_or_null (entry_date en));
              duration_ms = e.duration_ms;
            })
            next.generation_timings
        else next.generation_timings;
  }

  unfoldable pub completed_generation : Entry → Event → Snapshot → Snapshot
  unfolding event_time
  completed_generation en e next = record next {
    phase = if e.carbonize then "carbonize_required" else "variants_ready";
    generation_completed_at = some (event_time en e);
    source_file = or_else e.source_file (or_else e.file next.source_file);
    preview_file = or_else e.preview_file next.preview_file;
    preview_mode = or_else e.preview_mode next.preview_mode;
    arrived_variants =
        value_or e.arrived_variants
          (if next.expected_variants == 0 then next.arrived_variants else next.expected_variants);
    pending_event_seq = none;
    pending_event = none;
    diagnostics =
        if e.carbonize
        then next.diagnostics ++ carbonize_cleanup_required (or_null e.file) ∷ []
        else next.diagnostics;
  }

  unfoldable pub on_completion : Entry → Event → Snapshot → Snapshot
  unfolding is_closed is_carbonize_handoff completed_generation derive_render_state push_diagnostic
  on_completion en e next =
      if is_closed next && not (is_carbonize_handoff e next)
      then push_diagnostic (late_generation_event_ignored e.type next.phase) next
      else let done = completed_generation en e next in
        record done { render_state = derive_render_state done }

  unfoldable pub on_variant_mount_failed : Entry → Event → Snapshot → Snapshot
  unfolding mount_variant add_mount_failure push_diagnostic event_time
  on_variant_mount_failed en e next = elim (mount_variant e) [
    | none ↦ push_diagnostic (malformed_mount_ack e.type e.variant) next
    | some v ↦
        add_mount_failure
          (record { variant = v; url = e.url; error = e.error; at = event_time en e }) e next
  ]

  -- What `accept` and `discard` share: the generation is over, by the user's choice.
  unfoldable pub cancel : String → String → Entry → Event → Snapshot → Snapshot
  unfolding set_pending event_time
  cancel phase reason en e next = record (set_pending en e next) {
    phase = phase;
    generation_canceled = true;
    generation_canceled_at = some (event_time en e);
    cancel_reason = some reason;
  }

  unfoldable pub on_accept : Entry → Event → Snapshot → Snapshot
  unfolding cancel
  on_accept en e next = record (cancel "accept_requested" "accept" en e next) {
    visible_variant = some (value_or (or_else e.variant_id next.visible_variant) 0);
    param_values = value_or e.param_values next.param_values;
  }

  -- The `switch` on the event's type.
  unfoldable pub dispatch : EventType → Entry → Event → Snapshot → Snapshot
  unfolding on_generate on_variant_plan on_detector_waivers on_agent_phase on_completion
      on_variant_mounted on_variant_mount_failed on_checkpoint on_accept on_page_request
      on_carbonize_cleanup on_steer_done cancel on_discarded finish on_agent_error push_diagnostic
  dispatch generate en e next = on_generate en e next
  dispatch variant_plan en e next = on_variant_plan e next
  dispatch detector_waivers en e next = on_detector_waivers e next
  dispatch agent_phase en e next = on_agent_phase en e next
  dispatch variants_ready en e next = on_completion en e next
  dispatch agent_done en e next = on_completion en e next
  dispatch variant_mounted en e next = on_variant_mounted e next
  dispatch variant_mount_failed en e next = on_variant_mount_failed en e next
  dispatch checkpoint en e next = on_checkpoint e next
  dispatch accept en e next = on_accept en e next
  dispatch accept_intent en e next = on_accept en e next
  dispatch manual_edit_apply en e next = on_page_request "manual_edit_apply_requested" en e next
  dispatch steer en e next = on_page_request "steer_requested" en e next
  dispatch carbonize_cleanup en e next = on_carbonize_cleanup en e next
  dispatch steer_done en e next = on_steer_done e next
  dispatch discard en e next = cancel "discard_requested" "discard" en e next
  dispatch discarded en e next = on_discarded next
  dispatch complete en e next = finish "completed" e next
  dispatch agent_error en e next = on_agent_error e next
  dispatch _ en e next = push_diagnostic (unknown_event_type e.type) next

  unfoldable pub apply_event : Snapshot → Entry → Snapshot
  unfolding copy_snapshot dispatch
  apply_event s en = dispatch (entry_event en).type en (entry_event en) (copy_snapshot s en)
