-- ===== src/Injection/Again.antt =====
-- A second reconciliation of the journal finds nothing to do (live/frameworks/journal.mjs,
-- healInjectJournal).
use agent_bus.Shared.{
  All, Bool-cases, List, String, [], ap, inl, inr, refl, some, true, ◌∷◌, ◌≡◌, Option-cases, none,
  sym,
}
use agent_bus.Injection.{
  Healed, Injected, Item, Platform, Project, heal_artifact, heal_inject_journal, heal_items,
  injected, is_kept, journal_of, malformed,
}
use mathlib.Core.Path.{subst}

module _ (w : Platform) (keep : List String) where
  abbrev IsKept : Item → Type 0
  IsKept malformed = ⊥
  IsKept (injected a) = is_kept w keep a ≡ true

  All-IsKept : (items : List Item) (p : Project) → All IsKept (heal_items w keep items p).1
  unfolding heal_items
  All-IsKept [] p = tt
  All-IsKept (malformed ∷ items) p = All-IsKept items p
  All-IsKept (injected a ∷ items) p = elim (Bool-cases (is_kept w keep a)) [
    | inl e ↦ rw e (e, All-IsKept items p)
    | inr e ↦ rw e (All-IsKept items (heal_artifact w a p).1)
  ]

  heal_items-kept :
      (items : List Item) (p : Project)
      → All IsKept items
      → heal_items w keep items p ≡ ([], items, p)
  unfolding heal_items
  heal_items-kept [] p h = refl
  heal_items-kept (malformed ∷ items) p h = absurd h.0
  heal_items-kept (injected a ∷ items) p h = rw h.0 (ap (again a) (heal_items-kept items p h.1))
    where
      again : Injected → List Healed × List Item × Project → List Healed × List Item × Project
      again b (healed, kept, q) = (healed, injected b ∷ kept, q)

  heal_journal_of :
      (items : List Item) (p : Project)
      → All IsKept items
      → heal_inject_journal w keep (record p { journal = journal_of w items })
        ≡ ([], items, record p { journal = journal_of w items })
  unfolding heal_inject_journal
  heal_journal_of [] p h = refl
  heal_journal_of (i ∷ is) p h =
      ap (λ r. (r.0, r.1, record r.2 { journal = journal_of w r.1 }))
        (heal_items-kept (i ∷ is) (record p { journal = some (i ∷ is) }) h)

  abbrev IsIdle : List Healed × List Item × Project → Type 0
  IsIdle r = heal_inject_journal w keep r.2 ≡ ([], r.1, r.2)

  heal_none : (p : Project) → p.journal ≡ none → heal_inject_journal w keep p ≡ ([], [], p)
  unfolding heal_inject_journal
  heal_none p e = rw e refl

  abbrev pub with_journal : List Healed × List Item × Project → List Healed × List Item × Project
  with_journal r = (r.0, r.1, record r.2 { journal = journal_of w r.1 })

  pub heal_some :
      (p : Project) (items : List Item)
      → p.journal ≡ some items
      → heal_inject_journal w keep p ≡ with_journal (heal_items w keep items p)
  unfolding heal_inject_journal
  heal_some p items e = rw e refl

  -- A reconciliation that comes after another, with the same paths to keep, heals nothing, keeps what
  -- the first has kept, and changes neither a file nor the journal.
  pub heal_inject_journal-again :
      (p : Project)
      → heal_inject_journal w keep (heal_inject_journal w keep p).2
        ≡ ([], (heal_inject_journal w keep p).1, (heal_inject_journal w keep p).2)
  heal_inject_journal-again p = elim (Option-cases p.journal) [
    | inl e ↦ subst IsIdle (sym (heal_none p e)) (heal_none p e)
    | inr (items, e) ↦ subst IsIdle (sym (heal_some p items e)) (
        heal_journal_of (heal_items w keep items p).1 (heal_items w keep items p).2
          (All-IsKept items p))
  ]
