-- ===== src/Examples/Pages.antt =====
-- A page that saves its session and is loaded anew (live-browser-session.js).
use agent_bus.Browser.Text.{is_finite_value}
use agent_bus.Browser.{Access, Page, load_session, next_checkpoint_revision, save_session}
use agent_bus.Browser.Revisions.{
  Call, IsAscending, loads, nexts, perform_all, perform_all-IsAscending,
}
use agent_bus.Shared.{
  Fields, List, Num, String, Value, [], false, get_field, max, none, refl, some, str_eq, true, ◌<◌,
  ◌∷◌, ◌≡◌,
}
use agent_bus.Validation.{get}
use agent_bus.Browser.Reload.{reload_ascends, reloaded, save_session-load, field_of_text}

abbrev working_access : Access
working_access = record { reads = true; writes = true }

abbrev session : Fields
session = Fields.field "id" (Value.str "a1b2c3d4") (
    Fields.field "scale" (Value.num Num.infinity)
      (Fields.field "count" (Value.num (Num.nat 3)) Fields.end))

abbrev page : Page
page = record {
  checkpoint_revision = 3;
  storage = record {
    session_item = some (some (Value.obj session));
    handled_item = none;
    scroll_item = none;
  };
}

abbrev calls : List Call
calls =
    nexts working_access
    ∷ loads working_access
    ∷ nexts (record { reads = false; writes = false })
    ∷ []

perform_all-IsAscending_example : IsAscending 3 (perform_all calls page).0
perform_all-IsAscending_example = perform_all-IsAscending calls page

save_session-load_example :
    (loaded : Fields) × (load_session working_access
        (reloaded 0 (save_session working_access (Value.obj session) page))
      ≡ (
        some (Value.obj loaded),
        reloaded (max 0 3) (save_session working_access (Value.obj session) page),
      ))
    × (get_field "checkpointRevision" loaded ≡ some (Value.num (Num.nat 3)))
    × ((key : String)
        → str_eq "checkpointRevision" key ≡ false
        → get_field key loaded ≡ field_of_text (get_field key session))
    × ((key : String) (v : Value)
        → str_eq "checkpointRevision" key ≡ false
        → get_field key session ≡ some v
        → is_finite_value v ≡ true
        → get_field key loaded ≡ some v)
save_session-load_example = save_session-load session page 0 (unfold get_field get in refl)

reload_ascends_example :
    (next_checkpoint_revision working_access page).0
    < (next_checkpoint_revision working_access
        (load_session working_access
          (reloaded 0 (next_checkpoint_revision working_access page).1)).1).0
reload_ascends_example =
    reload_ascends session page 0 working_access refl (unfold get_field get in refl)
