-- ===== src/Session/Apply/Render.antt =====
-- The render truth of a session: what the browser has acknowledged (live/session-store.mjs).
use agent_bus.Shared.{
  All, All-append, All-sort_numbers, Bool, Bool-cases, Increasing, Option-cases, [], arith, false,
  includes, inl, inr, length, ne_of_includes, not, refl, some, sort_numbers,
  sort_numbers-Increasing, true, ℕ, ◌&&◌, ◌++◌, ◌↔◌, ◌∷◌, ◌≡◌, ◌≢◌, ◌≤◌, String, last_n,
  length-last_n,
}
use agent_bus.Session.{Clock, Entry, Event, Snapshot, failed, mounted, MountFailure, base_snapshot}
use agent_bus.Vocabulary.{
  EventType, agent_done, generate, variant_mount_failed, variant_mounted, variants_ready,
}
use agent_bus.Session.Handlers.{
  add_mounted, derive_render_state, is_carbonize_handoff, is_closed, mount_failure_history,
  mount_variant, on_variant_mounted, add_mount_failure, entry_event,
}
use agent_bus.Session.Apply.{
  completed_generation, dispatch, on_completion, on_variant_mount_failed, apply_event,
  copy_snapshot, event_time,
}

-- The mounted variants are distinct positive numbers in order, at most five failures are kept, and
-- the render state says no more than the acknowledgements do.
pub record IsRendered (s : Snapshot) : Type 0 where
  pub capped : length s.mount_failures ≤ mount_failure_history
  pub increasing : Increasing s.mounted_variants
  pub positive : All (λ v. 1 ≤ v) s.mounted_variants
  pub mounted_iff : (s.render_state ≡ some mounted) ↔ (s.mounted_variants ≢ [])
  pub failed_of : s.render_state ≡ some failed → s.mount_failures ≢ []

abbrev touches_render : EventType → Bool
touches_render generate = true
touches_render variants_ready = true
touches_render agent_done = true
touches_render variant_mounted = true
touches_render variant_mount_failed = true
touches_render _ = false

abbrev SameRender : Snapshot → Snapshot → Type 0
SameRender s t =
    (s.mount_failures ≡ t.mount_failures)
    × (s.mounted_variants ≡ t.mounted_variants)
    × (s.render_state ≡ t.render_state)

IsRendered-of_same : (s t : Snapshot) → SameRender s t → IsRendered s → IsRendered t
IsRendered-of_same s t e h = record {
  capped = rw (← e.0) h.capped;
  increasing = rw (← e.1) h.increasing;
  positive = rw (← e.1) h.positive;
  mounted_iff = rw (← e.1, ← e.2) h.mounted_iff;
  failed_of = rw (← e.0, ← e.2) h.failed_of;
}

derived_iff : (s : Snapshot) → (derive_render_state s ≡ some mounted) ↔ (s.mounted_variants ≢ [])
unfolding derive_render_state
derived_iff s = ground arith

derived_failed : (s : Snapshot) → derive_render_state s ≡ some failed → s.mount_failures ≢ []
unfolding derive_render_state
derived_failed s h = ground arith

-- A snapshot whose render state has just been derived.
IsRendered-derived :
    (s : Snapshot)
    → length s.mount_failures ≤ mount_failure_history
    → Increasing s.mounted_variants
    → All (λ v. 1 ≤ v) s.mounted_variants
    → IsRendered (record s { render_state = derive_render_state s })
IsRendered-derived s k i p = record {
  capped = k;
  increasing = i;
  positive = p;
  mounted_iff = derived_iff s;
  failed_of = derived_failed s;
}

add_mounted-IsRendered :
    (v : ℕ) (next : Snapshot) → 1 ≤ v → IsRendered next → IsRendered (add_mounted v next)
unfolding add_mounted
add_mounted-IsRendered v next l h = elim (Bool-cases (includes v next.mounted_variants)) [
  | inl e ↦ rw e (IsRendered-derived next h.capped h.increasing h.positive)
  | inr e ↦ rw e (
      IsRendered-derived
        (record next { mounted_variants = sort_numbers (next.mounted_variants ++ v ∷ []) }) h.capped
        (sort_numbers-Increasing next.mounted_variants v h.increasing
          (ne_of_includes v next.mounted_variants e))
        (All-sort_numbers (λ v. 1 ≤ v) (next.mounted_variants ++ v ∷ [])
          (All-append (λ v. 1 ≤ v) next.mounted_variants (v ∷ []) h.positive (l, tt))))
]

mount_variant-positive : (e : Event) (v : ℕ) → mount_variant e ≡ some v → 1 ≤ v
unfolding mount_variant
mount_variant-positive e v h = ground arith

module _ (c : Clock) where
  on_completion-IsRendered :
      (en : Entry) (e : Event) (next : Snapshot)
      → IsRendered next
      → IsRendered (on_completion c en e next)
  unfolding on_completion
  on_completion-IsRendered en e next h =
      elim (Bool-cases (is_closed next && not (is_carbonize_handoff e next))) [
        | inl b ↦ rw b (IsRendered-of_same next _ (refl, refl, refl) h)
        | inr b ↦
            rw b (
              IsRendered-derived (completed_generation c en e next) h.capped h.increasing
                h.positive)
      ]

  on_variant_mounted-IsRendered :
      (e : Event) (next : Snapshot) → IsRendered next → IsRendered (on_variant_mounted e next)
  unfolding on_variant_mounted
  on_variant_mounted-IsRendered e next h = elim (Option-cases (mount_variant e)) [
    | inl b ↦ rw (b, on_variant_mounted) (IsRendered-of_same next _ (refl, refl, refl) h)
    | inr (v, b) ↦
        rw (b, on_variant_mounted) (add_mounted-IsRendered v next (mount_variant-positive e v b) h)
  ]

  abbrev failure_of : Entry → Event → ℕ → MountFailure
  failure_of en e v = record { variant = v; url = e.url; error = e.error; at = event_time c en e }

  abbrev with_failure : MountFailure → Snapshot → Snapshot
  with_failure f next = record next {
    mount_failures = last_n mount_failure_history (next.mount_failures ++ f ∷ []);
  }

  add_mount_failure-IsRendered :
      (f : MountFailure) (e : Event) (next : Snapshot)
      → IsRendered next
      → IsRendered (add_mount_failure f e next)
  unfolding add_mount_failure
  add_mount_failure-IsRendered f e next h =
      IsRendered-of_same
        (record (with_failure f next) { render_state = derive_render_state (with_failure f next) })
        _ (refl, refl, refl)
        (IsRendered-derived (with_failure f next)
          (length-last_n mount_failure_history (next.mount_failures ++ f ∷ [])) h.increasing
          h.positive)

  on_variant_mount_failed-IsRendered :
      (en : Entry) (e : Event) (next : Snapshot)
      → IsRendered next
      → IsRendered (on_variant_mount_failed c en e next)
  unfolding on_variant_mount_failed
  on_variant_mount_failed-IsRendered en e next h = elim (Option-cases (mount_variant e)) [
    | inl b ↦ rw (b, on_variant_mount_failed) (IsRendered-of_same next _ (refl, refl, refl) h)
    | inr (v, b) ↦
        rw (b, on_variant_mount_failed) (add_mount_failure-IsRendered (failure_of en e v) e next h)
  ]

  dispatch-SameRender :
      (t : EventType) (en : Entry) (e : Event) (next : Snapshot)
      → touches_render t ≡ false
      → SameRender next (dispatch c t en e next)
  unfolding dispatch
  dispatch-SameRender generate en e next h = cc
  dispatch-SameRender _ en e next h = ground arith

  dispatch-IsRendered :
      (t : EventType) (en : Entry) (e : Event) (next : Snapshot)
      → IsRendered next
      → IsRendered (dispatch c t en e next)
  dispatch-IsRendered generate en e next h =
      unfold dispatch in
      record {
        capped = omega arith;
        increasing = tt;
        positive = tt;
        mounted_iff = ((λ q. cc), λ q. absurd (q refl));
        failed_of = λ q. cc;
      }
  dispatch-IsRendered variants_ready en e next h =
      unfold dispatch in on_completion-IsRendered en e next h
  dispatch-IsRendered agent_done en e next h =
      unfold dispatch in on_completion-IsRendered en e next h
  dispatch-IsRendered variant_mounted en e next h =
      unfold dispatch in on_variant_mounted-IsRendered e next h
  dispatch-IsRendered variant_mount_failed en e next h =
      unfold dispatch in on_variant_mount_failed-IsRendered en e next h
  dispatch-IsRendered t en e next h =
      IsRendered-of_same next _ (dispatch-SameRender t en e next refl) h

  pub IsRendered-apply_event :
      (s : Snapshot) (en : Entry) → IsRendered s → IsRendered (apply_event c s en)
  unfolding apply_event copy_snapshot
  IsRendered-apply_event s en h =
      dispatch-IsRendered (entry_event en).type en (entry_event en) (copy_snapshot c s en)
        (IsRendered-of_same s (copy_snapshot c s en) (refl, refl, refl) h)

pub IsRendered-base : (id : String) → IsRendered (base_snapshot id)
unfolding base_snapshot
IsRendered-base id = record {
  capped = omega arith;
  increasing = tt;
  positive = tt;
  mounted_iff = ((λ q. cc), λ q. absurd (q refl));
  failed_of = λ q. cc;
}
