-- ===== src/Generation/Redelivery.antt =====
-- A browser that missed the `done` of a generation is sent it again (live-server.mjs).
use mathlib.Core.Path.{subst}
use agent_bus.Shared.{
  Bool-cases, Option, String, arith, false, inl, inr, none, refl, some, str_eq, true, value_or, ◌≡◌,
  ap, eq_iff, sym, ◌∙◌,
}
use agent_bus.Session.{Clock, Entry, Event, Snapshot}
use agent_bus.Generation.{
  Done, claims_behind, detect_missed_generation_completion, missed_completion_from_snapshot,
  result_file,
}
use agent_bus.Vocabulary.{EventType, checkpoint, type_eq}
use agent_bus.Session.Handlers.{
  apply_checkpoint, apply_revision, entry_event, fenced, is_closed, on_checkpoint, push_diagnostic,
}
use agent_bus.Session.Apply.{apply_event, copy_snapshot, dispatch}

type_eq→checkpoint : (t : EventType) → type_eq t checkpoint ≡ true → t ≡ checkpoint
type_eq→checkpoint checkpoint h = refl
type_eq→checkpoint _ h = cc

-- The message turns on these fields alone.
abbrev IsSameResult : Snapshot → Snapshot → Type 0
IsSameResult s t =
    (s.id ≡ t.id)
    × (s.generation_completed_at ≡ t.generation_completed_at)
    × (s.source_file ≡ t.source_file)
    × (s.preview_file ≡ t.preview_file)
    × (s.preview_mode ≡ t.preview_mode)

missed_open :
    (s : Snapshot) (d : Done)
    → missed_completion_from_snapshot (some s) ≡ some d
    → is_closed s ≡ false
unfolding missed_completion_from_snapshot
missed_open s d h = elim (Bool-cases (is_closed s)) [ inr e ↦ e | inl e ↦ ground arith ]

missed-IsSameResult :
    (s t : Snapshot) (d : Done)
    → IsSameResult s t
    → is_closed t ≡ false
    → missed_completion_from_snapshot (some s) ≡ some d
    → missed_completion_from_snapshot (some t) ≡ some d
unfolding missed_completion_from_snapshot result_file
missed-IsSameResult s t d p h m = let o = missed_open s d m in ground arith

checkpoint-IsSameResult :
    (e : Event) (s : Snapshot)
    → e.source_file ≡ none
    → e.preview_file ≡ none
    → e.preview_mode ≡ none
    → IsSameResult s (on_checkpoint e s)
unfolding on_checkpoint apply_checkpoint apply_revision push_diagnostic
checkpoint-IsSameResult e s f g m = ground arith

generating-is_open :
    (p : Option String)
    → str_eq (value_or p "") "generating" ≡ true
    → fenced (value_or p "") ≡ false
unfolding fenced
generating-is_open p h =
    subst (λ x. fenced x ≡ false) (sym ((eq_iff (value_or p "") "generating").0 h)) refl

checkpoint-is_open :
    (e : Event) (s : Snapshot)
    → str_eq (value_or e.phase "") "generating" ≡ true
    → is_closed s ≡ false
    → is_closed (on_checkpoint e s) ≡ false
unfolding on_checkpoint apply_checkpoint apply_revision push_diagnostic is_closed
checkpoint-is_open e s h o = ground (arith, generating-is_open e.phase h)

detect_behind :
    (e : Event) (o : Option Snapshot)
    → claims_behind e ≡ true
    → detect_missed_generation_completion e o ≡ missed_completion_from_snapshot o
unfolding detect_missed_generation_completion
detect_behind e o h = rw h refl

module _ (c : Clock) where
  apply_event-checkpoint :
      (s : Snapshot) (en : Entry) (t : EventType)
      → t ≡ checkpoint
      → dispatch c t en (entry_event en) (copy_snapshot c s en)
        ≡ on_checkpoint (entry_event en) (copy_snapshot c s en)
  unfolding dispatch
  apply_event-checkpoint s en t h = rw h refl

  -- If a checkpoint that names no files is answered with a `done` message, it is answered with the
  -- same message after its own entry, which may put the phase of the session back to `generating`,
  -- has gone to the journal.
  pub redelivery-apply_event :
      (s : Snapshot) (en : Entry) (d : Done)
      → (entry_event en).source_file ≡ none
      → (entry_event en).preview_file ≡ none
      → (entry_event en).preview_mode ≡ none
      → detect_missed_generation_completion (entry_event en) (some s) ≡ some d
      → detect_missed_generation_completion (entry_event en) (some (apply_event c s en)) ≡ some d
  unfolding detect_missed_generation_completion
  redelivery-apply_event s en d f g m h =
      let e = entry_event en in
      let is_behind : claims_behind e ≡ true = ground arith in
      let missed : missed_completion_from_snapshot (some s) ≡ some d = ground arith in
      let t : e.type ≡ checkpoint =
        unfold claims_behind in type_eq→checkpoint e.type (ground arith) in
      let p : str_eq (value_or e.phase "") "generating" ≡ true =
        unfold claims_behind in ground arith in
      let same = checkpoint-IsSameResult e (copy_snapshot c s en) f g m in
      let next =
        missed-IsSameResult s (on_checkpoint e (copy_snapshot c s en)) d
          (unfold copy_snapshot in same)
          (checkpoint-is_open e (copy_snapshot c s en) p
            (unfold is_closed copy_snapshot in missed_open s d missed))
          missed in
      let applied : apply_event c s en ≡ on_checkpoint e (copy_snapshot c s en) =
        unfold apply_event in apply_event-checkpoint s en e.type t in
      detect_behind e (some (apply_event c s en)) is_behind
      ∙ ap (λ (x : Snapshot). missed_completion_from_snapshot (some x)) applied
      ∙ next
