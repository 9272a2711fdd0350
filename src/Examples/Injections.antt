-- ===== src/Examples/Injections.antt =====
-- A reconciliation of a journal with a created file and a kept one
-- (live/frameworks/journal.mjs).
use agent_bus.Injection.{
  Injected, Item, Platform, Project, heal_artifact, heal_inject_journal, injected, malformed,
}
use agent_bus.Injection.Safety.{IsCareful, heal_artifact-IsCareful}
use agent_bus.Shared.{
  List, String, [], false, if◌then◌else◌, none, refl, some, str_eq, true, ◌∷◌, ◌≡◌, ◌⊎◌,
}
use agent_bus.Injection.Contained.{MayHeal, heal_inject_journal-contained}
use agent_bus.Injection.Again.{heal_inject_journal-again}

abbrev platform : Platform
platform = record {
  resolve = λ rel. rel;
  relative = λ abs. abs;
  is_absolute = λ rel. false;
  undoer = λ patch. none;
  is_writable = λ abs. true;
}

abbrev created : String → Injected
created path = record {
  path = path;
  kind = "created";
  marker = some "@live";
  markers = [];
  patch = "";
}

abbrev orphans : List Item
orphans = injected (created "a.js") ∷ malformed ∷ injected (created "b.js") ∷ []

abbrev project : Project
project = record {
  content = λ abs. if str_eq abs "a.js" then some "// @live" else some "b @live";
  journal = some orphans;
}

heal_artifact-IsCareful_example :
    IsCareful platform (created "a.js") project (heal_artifact platform (created "a.js") project)
heal_artifact-IsCareful_example = heal_artifact-IsCareful platform (created "a.js") project

heal_inject_journal-contained_example :
    ((heal_inject_journal platform ("b.js" ∷ []) project).2.content "b.js" ≡ project.content "b.js")
    ⊎ MayHeal platform ("b.js" ∷ []) orphans "b.js"
heal_inject_journal-contained_example =
    heal_inject_journal-contained platform ("b.js" ∷ []) orphans project "b.js" refl

heal_inject_journal-again_example :
    heal_inject_journal platform
      ("b.js" ∷ [])
      (heal_inject_journal platform ("b.js" ∷ []) project).2
    ≡ (
      [],
      (heal_inject_journal platform ("b.js" ∷ []) project).1,
      (heal_inject_journal platform ("b.js" ∷ []) project).2,
    )
heal_inject_journal-again_example = heal_inject_journal-again platform ("b.js" ∷ []) project
