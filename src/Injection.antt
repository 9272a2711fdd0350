-- ===== src/Injection.antt =====
-- live/frameworks/journal.mjs: the journal of what an injection wrote into the project, and the
-- reconciliation of that with the files. The directories that are left empty are not modelled.
pub mod Safety
pub mod Again
pub mod Contained
use agent_bus.Shared.{
  Bool, List, Option, String, [], any, begins_with, codes, has_part, if◌then◌else◌, none, not, some,
  str_eq, true, truthy, value_or, ◌&&◌, ◌||◌, ◌∷◌,
}

-- An entry of the journal. `marker` is that of a created file, `markers` those of a patched one.
pub record Injected : Type 0 where
  pub path : String
  pub kind : String
  pub marker : Option String
  pub markers : List String
  pub patch : String

-- `malformed` is an entry that is no object with a path.
pub data Item : Type 0 where
  malformed : Item
  injected : Injected → Item

pub data Action : Type 0 where
  refused_outside_project absent disowned removed unpatched nothing : Action

-- The files by their absolute paths, and the artifacts of the journal, `none` where readInjectJournal
-- gives null. The journal is no artifact itself.
pub record Project : Type 0 where
  pub content : String → Option String
  pub journal : Option (List Item)

-- What the code takes from elsewhere: path.resolve and path.relative from the working directory,
-- path.isAbsolute, PATCH_UNDOERS, and whether a file can be written or removed.
pub record Platform : Type 0 where
  pub resolve : String → String
  pub relative : String → String
  pub is_absolute : String → Bool
  pub undoer : String → Option (String → String)
  pub is_writable : String → Bool

-- A healed artifact.
pub record Healed : Type 0 where
  pub path : String
  pub action : Action

abbrev pub put_content : String → Option String → Project → Project
put_content x c p = record p { content = λ y. if str_eq y x then c else p.content y }

module _ (w : Platform) where
  -- insideProject
  unfoldable pub inside_project : String → Bool
  inside_project abs =
      let rel = w.relative abs in
      not (str_eq rel "") && not (begins_with (codes "..") (codes rel)) && not (w.is_absolute rel)

  -- A created file goes if it carries its marker.
  unfoldable pub heal_created : Injected → String → String → Project → Action × Project
  heal_created a abs content p =
      if not (truthy a.marker) || not (has_part (value_or a.marker "") content)
      then (disowned, p)
      else if w.is_writable abs
      then (removed, put_content abs none p)
      else (nothing, p)

  abbrev pub write_undone : String → String → String → Project → Action × Project
  write_undone abs content next p =
      if str_eq next content
      then (disowned, p)
      else if w.is_writable abs
      then (unpatched, put_content abs (some next) p)
      else (nothing, p)

  abbrev pub undo_with : Option (String → String) → String → String → Project → Action × Project
  undo_with none abs content p = (nothing, p)
  undo_with (some undo) abs content p = write_undone abs content (undo content) p

  abbrev pub has_marker : List String → String → Bool
  has_marker [] content = true
  has_marker (m ∷ ms) content = any (λ x. has_part x content) (m ∷ ms)

  -- A patched file is undone if it still carries one of its markers, where it has any.
  unfoldable pub heal_patched : Injected → String → String → Project → Action × Project
  heal_patched a abs content p =
      if not (has_marker a.markers content)
      then (disowned, p)
      else undo_with (w.undoer a.patch) abs content p

  unfoldable pub heal_content : Injected → String → Option String → Project → Action × Project
  unfolding heal_created heal_patched
  heal_content a abs none p = (absent, p)
  heal_content a abs (some content) p =
      if str_eq a.kind "created"
      then heal_created a abs content p
      else if str_eq a.kind "patched"
      then heal_patched a abs content p
      else (nothing, p)

  -- healArtifact
  unfoldable pub heal_artifact : Injected → Project → Action × Project
  unfolding inside_project heal_content
  heal_artifact a p =
      let abs = w.resolve a.path in
      if inside_project abs
      then heal_content a abs (p.content abs) p
      else (refused_outside_project, p)

  -- `keepSet.has(normalizeRel(cwd, path))`, where `/` separates paths
  unfoldable pub is_kept : List String → Injected → Bool
  is_kept keep a = any (λ rel. str_eq (w.resolve rel) (w.resolve a.path)) keep

  abbrev pub note : Injected → Action → List Healed → List Healed
  note a removed healed = record { path = a.path; action = removed } ∷ healed
  note a unpatched healed = record { path = a.path; action = unpatched } ∷ healed
  note a other_action healed = healed

  -- The loop over the artifacts: the healed ones, the kept ones, and the files.
  unfoldable pub heal_items : List String → List Item → Project → List Healed × List Item × Project
  unfolding heal_artifact is_kept
  heal_items keep [] p = ([], [], p)
  heal_items keep (malformed ∷ items) p = heal_items keep items p
  heal_items keep (injected a ∷ items) p =
      let (action, q) = heal_artifact a p in
      let (healed, kept, last) = heal_items keep items q in
      let (healed', kept', last') = heal_items keep items p in
      if is_kept keep a
      then (healed', injected a ∷ kept', last')
      else (note a action healed, kept, last)

  abbrev pub journal_of : List Item → Option (List Item)
  journal_of [] = none
  journal_of (i ∷ is) = some (i ∷ is)

  -- healInjectJournal
  unfoldable pub heal_inject_journal : List String → Project → List Healed × List Item × Project
  unfolding heal_items
  heal_inject_journal keep p = elim p.journal [
    | none ↦ ([], [], p)
    | some items ↦
        let (healed, kept, q) = heal_items keep items p in
        (healed, kept, record q { journal = journal_of kept })
  ]

-- recordInjection
unfoldable pub record_injection : List Item → Project → Project
record_injection [] p = record p { journal = none }
record_injection (i ∷ is) p = record p { journal = some (i ∷ is) }
