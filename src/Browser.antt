-- ===== src/Browser.antt =====
-- live-browser-session.js: what the overlay of a tab keeps in the storage of its browser, and the
-- revisions of its checkpoints.
pub mod Text
pub mod Reload
pub mod Revisions
use agent_bus.Shared.{
  Bool, Fields, Num, Option, String, Value, false, if◌then◌else◌, is_some, max, none, not, some,
  str_eq, value_or_null, ℕ, ◌&&◌, ◌+◌, to_json,
}
use agent_bus.Validation.{get}

-- What the storage holds under sessionKey, handledKey and scrollKey. The session is the value that
-- its text parses to, `some none` where it does not parse.
pub record Storage : Type 0 where
  pub session_item : Option (Option Value)
  pub handled_item : Option String
  pub scroll_item : Option String

-- A page with its counter of checkpoints, on the storage of its origin.
pub record Page : Type 0 where
  pub checkpoint_revision : ℕ
  pub storage : Storage

-- Whether getItem works, and setItem or removeItem, at one call: a browser may refuse either.
pub record Access : Type 0 where
  pub reads : Bool
  pub writes : Bool

-- safeRead
unfoldable pub safe_read {ℓ} : {A : Type ℓ} → Access → Option A → Option A
safe_read a item = if a.reads then item else none

-- safeWrite and safeRemove, on the item that is there.
unfoldable pub safe_write {ℓ} : {A : Type ℓ} → Access → Option A → Option A → Option A
safe_write a new_item item = if a.writes then new_item else item

-- `{ ...fields, [key]: v }`
unfoldable pub set_field : String → Value → Fields → Fields
set_field k v Fields.end = Fields.field k v Fields.end
set_field k v (Fields.field j w fs) =
    let rest = set_field k v fs in if str_eq j k then Fields.field j v fs else Fields.field j w rest

-- `Number.isInteger(n) ? Math.max(revision, n) : revision`
unfoldable pub raise_revision : Option Value → ℕ → ℕ
raise_revision (some (Value.num (Num.nat n))) revision = max revision n
raise_revision other_value revision = revision

-- loadSession, on the value that the text parses to: `null.checkpointRevision` is a TypeError.
unfoldable pub load_parsed : Value → Page → Option Value × Page
unfolding raise_revision get
load_parsed Value.null p = (none, p)
load_parsed v p = (
  some v,
  record p {
    checkpoint_revision = raise_revision (get "checkpointRevision" v) p.checkpoint_revision;
  },
)

unfoldable pub load_session : Access → Page → Option Value × Page
unfolding safe_read load_parsed
load_session a p = elim (safe_read a p.storage.session_item) [
  | none ↦ (none, p)
  | some none ↦ (none, p)
  | some (some v) ↦ load_parsed v p
]

-- `session.id` is truthy.
abbrev pub has_session_id : Value → Bool
has_session_id v = is_some (value_or_null (get "id" v))

-- The payload of saveSession.
abbrev pub payload : Value → ℕ → Value
payload (Value.obj fields) n =
    Value.obj (set_field "checkpointRevision" (Value.num (Num.nat n)) fields)
payload other_value n = other_value

-- saveSession, for an object. The text of JSON.stringify parses to what `to_json` gives.
unfoldable pub save_session : Access → Value → Page → Page
unfolding safe_write set_field get to_json
save_session a v p = if not (has_session_id v) then p else record p {
  storage = record p.storage {
    session_item =
        safe_write a (some (some (to_json (payload v p.checkpoint_revision))))
          p.storage.session_item;
  };
}

unfoldable pub clear_session : Access → Page → Page
unfolding safe_write
clear_session a p = record p {
  storage = record p.storage { session_item = safe_write a none p.storage.session_item };
}

-- nextCheckpointRevision, behind loadSession
abbrev pub save_existing : Access → Option Value × Page → Page
save_existing a (none, p) = p
save_existing a (some v, p) = if has_session_id v then save_session a v p else p

-- nextCheckpointRevision
unfoldable pub next_checkpoint_revision : Access → Page → ℕ × Page
unfolding load_session save_session
next_checkpoint_revision a p =
    let q =
      save_existing a
        (load_session a (record p { checkpoint_revision = p.checkpoint_revision + 1 })) in
    (q.checkpoint_revision, q)

unfoldable pub seed_checkpoint_revision : Option Value → Page → Page
unfolding raise_revision
seed_checkpoint_revision v p = record p {
  checkpoint_revision = raise_revision v p.checkpoint_revision;
}

-- markHandled
unfoldable pub mark_handled : Access → String → Page → Page
unfolding safe_write
mark_handled a id p = if str_eq id "" then p else record p {
  storage = record p.storage { handled_item = safe_write a (some id) p.storage.handled_item };
}

-- isHandled
unfoldable pub is_handled : Access → String → Page → Bool
unfolding safe_read
is_handled a id p =
    not (str_eq id "")
    && elim (safe_read a p.storage.handled_item) [ none ↦ false | some handled ↦ str_eq handled id ]

unfoldable pub clear_handled : Access → Page → Page
unfolding safe_write
clear_handled a p = record p {
  storage = record p.storage { handled_item = safe_write a none p.storage.handled_item };
}

-- writeScrollY, of the printed number
unfoldable pub write_scroll_y : Access → String → Page → Page
unfolding safe_write
write_scroll_y a y p = record p {
  storage = record p.storage { scroll_item = safe_write a (some y) p.storage.scroll_item };
}

-- readScrollY; `parse_float` is `none` where the number is not finite.
unfoldable pub read_scroll_y : (String → Option Num) → Access → Page → Option Num
unfolding safe_read
read_scroll_y parse_float a p = elim (safe_read a p.storage.scroll_item) [
  | none ↦ none
  | some y ↦ parse_float y
]

unfoldable pub clear_scroll_y : Access → Page → Page
unfolding safe_write
clear_scroll_y a p = record p {
  storage = record p.storage { scroll_item = safe_write a none p.storage.scroll_item };
}
