-- ===== src/Injection/Safety.antt =====
-- What a reconciliation of the journal may touch (live/frameworks/journal.mjs, healInjectJournal).
use agent_bus.Injection.{
  Action, Injected, Platform, Project, has_marker, heal_artifact, heal_content, heal_created,
  heal_patched, inside_project, put_content, refused_outside_project, undo_with,
}
use agent_bus.Shared.{
  Bool-cases, Option, String, false, has_part, inl, inr, none, refl, some, str_eq, true, value_or,
  ◌≡◌, ◌⊎◌, Bool, if◌then◌else◌, not, sym, truthy, ◌||◌,
}
use mathlib.Core.Bool.{false≢true}

both_hold : (a b : Bool) → (not a || not b) ≡ false → (a ≡ true) × (b ≡ true)
both_hold true true h = (refl, refl)
both_hold true false h = absurd (false≢true (sym h))
both_hold false b h = absurd (false≢true (sym h))

module _ (w : Platform) where
  -- The reasons for which a file of an artifact is changed: the file is inside the project, and it
  -- still carries the marker of a created artifact, which has to have one, or a marker of a patched
  -- artifact, where that names any.
  abbrev pub IsOwned : Injected → Option String → Type 0
  IsOwned a none = ⊥
  IsOwned a (some content) =
      (inside_project w (w.resolve a.path) ≡ true)
      × (((str_eq a.kind "created" ≡ true)
            × (truthy a.marker ≡ true)
            × (has_part (value_or a.marker "") content ≡ true))
          ⊎ ((str_eq a.kind "patched" ≡ true) × (has_marker w a.markers content ≡ true)))

  abbrev pub IsCareful : Injected → Project → Action × Project → Type 0
  IsCareful a p r =
      (r.1.content ≡ p.content)
      ⊎ (IsOwned a (p.content (w.resolve a.path))
          × ((abs : String)
              → str_eq abs (w.resolve a.path) ≡ false
              → r.1.content abs ≡ p.content abs))

  put_content-other :
      (x : String) (c : Option String) (p : Project) (abs : String)
      → str_eq abs x ≡ false
      → (put_content x c p).content abs ≡ p.content abs
  put_content-other x c p abs e = rw e refl

  abbrev Elsewhere : String → Project → Project → Type 0
  Elsewhere x p q = (abs : String) → str_eq abs x ≡ false → q.content abs ≡ p.content abs

  heal_created_lem :
      (a : Injected) (x content : String) (p : Project)
      → ((heal_created w a x content p).1.content ≡ p.content)
        ⊎ (((truthy a.marker ≡ true) × (has_part (value_or a.marker "") content ≡ true))
            × Elsewhere x p (heal_created w a x content p).1)
  unfolding heal_created
  heal_created_lem a x content p =
      let lacks = not (truthy a.marker) || not (has_part (value_or a.marker "") content) in
      elim (Bool-cases lacks) [
        | inl e ↦ rw e (inl refl)
        | inr e ↦ elim (Bool-cases (w.is_writable x)) [
          | inl k ↦ rw e (
              rw k (
                inr (
                  both_hold (truthy a.marker) (has_part (value_or a.marker "") content) e,
                  put_content-other x none p,
                )))
          | inr k ↦ rw e (rw k (inl refl))
        ]
      ]

  undo_with_lem :
      (undo : Option (String → String)) (x content : String) (p : Project)
      → ((undo_with w undo x content p).1.content ≡ p.content)
        ⊎ Elsewhere x p (undo_with w undo x content p).1
  undo_with_lem none x content p = inl refl
  undo_with_lem (some undo) x content p = elim (Bool-cases (str_eq (undo content) content)) [
    | inl e ↦ rw e (inl refl)
    | inr e ↦ elim (Bool-cases (w.is_writable x)) [
      | inl k ↦ rw e (rw k (inr (put_content-other x (some (undo content)) p)))
      | inr k ↦ rw e (rw k (inl refl))
    ]
  ]

  heal_patched_lem :
      (a : Injected) (x content : String) (p : Project)
      → ((heal_patched w a x content p).1.content ≡ p.content)
        ⊎ ((has_marker w a.markers content ≡ true) × Elsewhere x p (heal_patched w a x content p).1)
  unfolding heal_patched
  heal_patched_lem a x content p = elim (Bool-cases (has_marker w a.markers content)) [
    | inr e ↦ rw e (inl refl)
    | inl e ↦ rw e (elim (undo_with_lem (w.undoer a.patch) x content p) [
      | inl k ↦ inl k
      | inr k ↦ inr (refl, k)
    ])
  ]

  heal_content-IsCareful :
      (a : Injected) (p : Project) (c : Option String)
      → inside_project w (w.resolve a.path) ≡ true
      → ((heal_content w a (w.resolve a.path) c p).1.content ≡ p.content)
        ⊎ (IsOwned a c × Elsewhere (w.resolve a.path) p (heal_content w a (w.resolve a.path) c p).1)
  unfolding heal_content
  heal_content-IsCareful a p none e = inl refl
  heal_content-IsCareful a p (some content) e = elim (Bool-cases (str_eq a.kind "created")) [
    | inl k ↦ rw k (elim (heal_created_lem a (w.resolve a.path) content p) [
      | inl x ↦ inl x
      | inr ((x, z), y) ↦ inr ((e, inl (refl, x, z)), y)
    ])
    | inr k ↦ elim (Bool-cases (str_eq a.kind "patched")) [
      | inl l ↦ rw k (
          rw l (elim (heal_patched_lem a (w.resolve a.path) content p) [
            | inl x ↦ inl x
            | inr (x, y) ↦ inr ((e, inr (refl, x)), y)
          ]))
      | inr l ↦ rw k (rw l (inl refl))
    ]
  ]

  -- To heal an artifact changes no file, or only that of the artifact, and that only if it lies inside
  -- the project and the artifact is a created one that has a marker which the file still carries, or a
  -- patched one that names no markers or one which the file still carries.
  pub heal_artifact-IsCareful : (a : Injected) (p : Project) → IsCareful a p (heal_artifact w a p)
  unfolding heal_artifact
  heal_artifact-IsCareful a p = by_place (inside_project w (w.resolve a.path)) refl
    where
      by_place :
          (b : Bool)
          → inside_project w (w.resolve a.path) ≡ b
          → IsCareful a p (
              if b
              then heal_content w a (w.resolve a.path) (p.content (w.resolve a.path)) p
              else (refused_outside_project, p))
      by_place false e = inl refl
      by_place true e = heal_content-IsCareful a p (p.content (w.resolve a.path)) e
