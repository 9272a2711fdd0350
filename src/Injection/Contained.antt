-- ===== src/Injection/Contained.antt =====
-- Which files a reconciliation of the journal may touch (live/frameworks/journal.mjs,
-- healInjectJournal).
use agent_bus.Shared.{
  Bool, Bool-cases, List, Option, String, [], ap, eq_iff, false, if◌then◌else◌, inl, inr, refl,
  some, str_eq, sym, true, ◌∙◌, ◌∷◌, ◌≡◌, ◌⊎◌,
}
use agent_bus.Injection.{
  Injected, Item, Platform, Project, heal_artifact, heal_content, heal_inject_journal, heal_items,
  injected, inside_project, is_kept, malformed, refused_outside_project,
}
use mathlib.Core.List.{Memᴰ}
use mathlib.Core.Bool.{false≢true}
use agent_bus.Injection.Safety.{heal_artifact-IsCareful}
use agent_bus.Injection.Again.{heal_some}
use mathlib.Core.Path.{subst}

module _ (w : Platform) where
  -- An artifact that a reconciliation may heal.
  abbrev pub MayHeal : List String → List Item → String → Type 0
  MayHeal keep items abs =
      (a : Injected) × Memᴰ (injected a) items
      × (w.resolve a.path ≡ abs)
      × (inside_project w abs ≡ true)
      × (is_kept w keep a ≡ false)

  heal_outside :
      (a : Injected) (p : Project)
      → inside_project w (w.resolve a.path) ≡ false
      → (heal_artifact w a p).1 ≡ p
  unfolding heal_artifact
  heal_outside a p e = by_place (inside_project w (w.resolve a.path)) e
    where
      by_place :
          (b : Bool)
          → b ≡ false
          → (if b
              then heal_content w a (w.resolve a.path) (p.content (w.resolve a.path)) p
              else (refused_outside_project, p)).1
            ≡ p
      by_place true k = absurd (false≢true (sym k))
      by_place false k = refl

  later :
      (i : Item) (keep : List String) (items : List Item) (abs : String) (T : Type 0)
      → T ⊎ MayHeal keep items abs
      → T ⊎ MayHeal keep (i ∷ items) abs
  later i keep items abs T (inl t) = inl t
  later i keep items abs T (inr (a, m, x, y, z)) = inr (a, Memᴰ.tail m, x, y, z)

  heal_artifact-elsewhere :
      (a : Injected) (p : Project) (abs : String)
      → ((heal_artifact w a p).1.content abs ≡ p.content abs)
        ⊎ ((w.resolve a.path ≡ abs) × (inside_project w abs ≡ true))
  heal_artifact-elsewhere a p abs = elim (Bool-cases (str_eq abs (w.resolve a.path))) [
    | inr e ↦ elim (heal_artifact-IsCareful w a p) [
      | inl k ↦ inl (ap (λ (f : String → Option String). f abs) k)
      | inr (o, k) ↦ inl (k abs e)
    ]
    | inl e ↦
        let same = (eq_iff abs (w.resolve a.path)).0 e in
        elim (Bool-cases (inside_project w (w.resolve a.path))) [
          | inl i ↦ inr (sym same, subst (λ x. inside_project w x ≡ true) (sym same) i)
          | inr i ↦ inl (ap (λ (q : Project). q.content abs) (heal_outside a p i))
        ]
  ]

  heal_items-contained :
      (keep : List String) (items : List Item) (p : Project) (abs : String)
      → ((heal_items w keep items p).2.content abs ≡ p.content abs) ⊎ MayHeal keep items abs
  unfolding heal_items
  heal_items-contained keep [] p abs = inl refl
  heal_items-contained keep (malformed ∷ items) p abs =
      later malformed keep items abs _ (heal_items-contained keep items p abs)
  heal_items-contained keep (injected a ∷ items) p abs = elim (Bool-cases (is_kept w keep a)) [
    | inl e ↦ rw e (later (injected a) keep items abs _ (heal_items-contained keep items p abs))
    | inr e ↦ rw e (elim (heal_items-contained keep items (heal_artifact w a p).1 abs) [
      | inr (b, m, x, y, z) ↦ inr (b, Memᴰ.tail m, x, y, z)
      | inl k ↦ elim (heal_artifact-elsewhere a p abs) [
        | inl x ↦ inl (k ∙ x)
        | inr (x, y) ↦ inr (a, Memᴰ.head refl, x, y, e)
      ]
    ])
  ]

  -- A reconciliation changes no file but those of artifacts of the journal that lie inside the project
  -- and that it is not told to keep.
  pub heal_inject_journal-contained :
      (keep : List String) (items : List Item) (p : Project) (abs : String)
      → p.journal ≡ some items
      → ((heal_inject_journal w keep p).2.content abs ≡ p.content abs) ⊎ MayHeal keep items abs
  heal_inject_journal-contained keep items p abs e =
      subst (λ r. (r.2.content abs ≡ p.content abs) ⊎ MayHeal keep items abs)
        (sym (heal_some w keep p items e)) (heal_items-contained keep items p abs)
