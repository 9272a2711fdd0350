-- ===== src/Browser/Reload.antt =====
-- What a page that is loaded anew gets back (live-browser-session.js).
use agent_bus.Browser.{
  Access, Page, has_session_id, load_parsed, load_session, next_checkpoint_revision, raise_revision,
  safe_read, safe_write, save_session, set_field,
}
use agent_bus.Shared.{
  Bool-cases, Fields, Num, String, Value, eq_refl, false, get_field, inl, inr, max, refl, some,
  str_eq, true, ℕ, ◌<◌, ◌≡◌, ap, arith, eq_iff, if◌then◌else◌, sym, ◌+◌, Option, none, to_json,
  to_json_fields, ◌∙◌,
}
use agent_bus.Validation.{get}
use agent_bus.Browser.Revisions.{next_checkpoint_revision-lt, save_session-revision}
use mathlib.Core.Path.{subst}
use agent_bus.Browser.Text.{is_finite_value, to_json-same}

abbrev working : Access
working = record { reads = true; writes = true }

get_field-set_field :
    (k : String) (v : Value) (fs : Fields) → get_field k (set_field k v fs) ≡ some v
unfolding get_field set_field
get_field-set_field k v Fields.end = rw (eq_refl k) refl
get_field-set_field k v (Fields.field j w fs) = elim (Bool-cases (str_eq j k)) [
  | inl e ↦ rw e (rw e refl)
  | inr e ↦ rw e (rw e (get_field-set_field k v fs))
]

get_field-set_field_other :
    (k j : String) (v : Value) (fs : Fields)
    → str_eq k j ≡ false
    → get_field j (set_field k v fs) ≡ get_field j fs
unfolding get_field set_field
get_field-set_field_other k j v Fields.end h = rw h refl
get_field-set_field_other k j v (Fields.field i w fs) h = elim (Bool-cases (str_eq i k)) [
  | inl e ↦
      let apart : str_eq i j ≡ false = subst (λ x. str_eq x j ≡ false) (sym ((eq_iff i k).0 e)) h in
      rw e (rw apart refl)
  | inr e ↦ rw e (ap (λ o. if str_eq i j then some w else o) (get_field-set_field_other k j v fs h))
]

-- What is read of a field after it was written as text: null for a number that is not finite.
abbrev pub field_of_text : Option Value → Option Value
field_of_text none = none
field_of_text (some v) = some (to_json v)

get_field-to_json :
    (key : String) (fs : Fields)
    → get_field key (to_json_fields fs) ≡ field_of_text (get_field key fs)
unfolding get_field to_json_fields
get_field-to_json key Fields.end = refl
get_field-to_json key (Fields.field j v fs) = elim (Bool-cases (str_eq j key)) [
  | inl e ↦ rw e refl
  | inr e ↦ rw e (get_field-to_json key fs)
]

-- The page that the browser loads on the storage of another.
abbrev pub reloaded : ℕ → Page → Page
reloaded n p = record { checkpoint_revision = n; storage = p.storage }

stored_revision :
    (n : ℕ) (fields : Fields)
    → get_field "checkpointRevision"
        (to_json_fields (set_field "checkpointRevision" (Value.num (Num.nat n)) fields))
      ≡ some (Value.num (Num.nat n))
unfolding to_json
stored_revision n fields =
    let v = Value.num (Num.nat n) in
    get_field-to_json "checkpointRevision" (set_field "checkpointRevision" v fields)
    ∙ ap field_of_text (get_field-set_field "checkpointRevision" v fields)

-- A session with an id that is saved with the storage working comes back in any page on that storage,
-- with the revision of the page that saved it and every other field as JSON writes and reads it, which
-- is as it was if all numbers in it are finite; and that page goes on from the greater of the two
-- revisions.
pub save_session-load :
    (fields : Fields) (p : Page) (n : ℕ)
    → has_session_id (Value.obj fields) ≡ true
    → (loaded : Fields) × (load_session working
          (reloaded n (save_session working (Value.obj fields) p))
        ≡ (
          some (Value.obj loaded),
          reloaded (max n p.checkpoint_revision) (save_session working (Value.obj fields) p),
        ))
      × (get_field "checkpointRevision" loaded ≡ some (Value.num (Num.nat p.checkpoint_revision)))
      × ((key : String)
          → str_eq "checkpointRevision" key ≡ false
          → get_field key loaded ≡ field_of_text (get_field key fields))
      × ((key : String) (v : Value)
          → str_eq "checkpointRevision" key ≡ false
          → get_field key fields ≡ some v
          → is_finite_value v ≡ true
          → get_field key loaded ≡ some v)
unfolding save_session load_session load_parsed raise_revision safe_read safe_write get to_json
save_session-load fields p n h =
    let v = Value.num (Num.nat p.checkpoint_revision) in
    let loaded = to_json_fields (set_field "checkpointRevision" v fields) in
    let kept : (key : String)
        → str_eq "checkpointRevision" key ≡ false
        → get_field key loaded ≡ field_of_text (get_field key fields) =
      λ key e.
        get_field-to_json key (set_field "checkpointRevision" v fields)
        ∙ ap field_of_text (get_field-set_field_other "checkpointRevision" key v fields e) in
    (
      loaded,
      rw h (rw (stored_revision p.checkpoint_revision fields) refl),
      stored_revision p.checkpoint_revision fields,
      kept,
      λ key x e f finite.
          kept key e ∙ ap field_of_text f ∙ ap (λ y. some y) (to_json-same x finite),
    )

abbrev advanced : Page → Page
advanced p = record p { checkpoint_revision = p.checkpoint_revision + 1 }

abbrev counted : Page → ℕ × Page
counted p = (p.checkpoint_revision, p)

next_of_stored :
    (fields : Fields) (p : Page)
    → p.storage.session_item ≡ some (some (Value.obj fields))
    → has_session_id (Value.obj fields) ≡ true
    → next_checkpoint_revision working p
      ≡ counted (save_session working (Value.obj fields) (load_session working (advanced p)).1)
unfolding next_checkpoint_revision load_session load_parsed safe_read
next_of_stored fields p e h = rw e (rw h refl)

-- A page in whose storage a session with an id is hands out a revision: with the storage working,
-- whatever page is loaded on it afterwards hands out a greater one.
pub reload_ascends :
    (fields : Fields) (p : Page) (n : ℕ) (a : Access)
    → p.storage.session_item ≡ some (some (Value.obj fields))
    → has_session_id (Value.obj fields) ≡ true
    → (next_checkpoint_revision working p).0
      < (next_checkpoint_revision a
          (load_session working (reloaded n (next_checkpoint_revision working p).1)).1).0
reload_ascends fields p n a e h =
    let q = (load_session working (advanced p)).1 in
    let saved = save_session working (Value.obj fields) q in
    let back = (save_session-load fields q n h).1 in
    let greater : saved.checkpoint_revision
        < (next_checkpoint_revision a (reloaded (max n q.checkpoint_revision) saved)).0 =
      omega (
        arith,
        next_checkpoint_revision-lt a (reloaded (max n q.checkpoint_revision) saved),
        save_session-revision working (Value.obj fields) q,
      ) in
    subst (λ r. r.0 < (next_checkpoint_revision a (load_session working (reloaded n r.1)).1).0)
      (sym (next_of_stored fields p e h))
      (subst (λ r. saved.checkpoint_revision < (next_checkpoint_revision a r.1).0) (sym back)
        greater)
