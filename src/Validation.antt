-- ===== src/Validation.antt =====
-- .opencode/skills/impeccable/scripts/live/event-validation.mjs: the tests that a message from the
-- browser has to pass, over the JSON value that the server has parsed.
pub mod Messages
pub mod Accepted
pub mod Fields
use agent_bus.Shared.{
  minus_infinity, Bool, Items, List, Option, String, Value, arr, codes, cons, every, false,
  get_field, if◌then◌else◌, infinity, is_blank, is_integer, is_some, leb, length, ltb, nan, nat,
  nil, none, not, num, num_ge, num_le, obj, some, str, str_eq, suc, true, truthy_value,
  utf16_length, ℕ, ◌&&◌, ◌==◌, ◌||◌,
}
use agent_bus.Vocabulary.{has_text, visual_actions}

-- What a validator returns: `null`, a message, or a TypeError that it throws. `about label text`
-- is the message `label: text`.
pub data Verdict : Type 0 where
  accepted : Verdict
  missing_message : Verdict
  about : String → String → Verdict
  unknown_phase : String → Verdict
  forbidden_text : String → List ℕ → Verdict
  unknown_event_type : Value → Verdict
  throws : Verdict

-- `v.key`, for a value that is not null: `none` is undefined.
unfoldable pub get : String → Value → Option Value
unfolding get_field
get key (obj fields) = get_field key fields
get key _ = none

abbrev pub is_string : Option Value → Bool
is_string (some (str s)) = true
is_string _ = false

abbrev pub text_of : Option Value → String
text_of (some (str s)) = s
text_of _ = ""

-- `Boolean(x)`; undefined is not.
abbrev pub truthy_field : Option Value → Bool
truthy_field none = false
truthy_field (some v) = truthy_value v

-- `typeof x === 'object'`, for a truthy x
abbrev pub is_object : Option Value → Bool
is_object (some (obj fields)) = true
is_object (some (arr items)) = true
is_object _ = false

abbrev pub is_array : Option Value → Bool
is_array (some (arr items)) = true
is_array _ = false

abbrev pub items_length : Items → ℕ
items_length nil = 0
items_length (cons v vs) = suc (items_length vs)

abbrev pub array_length : Option Value → ℕ
array_length (some (arr items)) = items_length items
array_length _ = 0

abbrev pub hex_digit : ℕ → Bool
hex_digit x = (leb b'0' x && leb x b'9') || (leb b'a' x && leb x b'f')

abbrev pub digit : ℕ → Bool
digit x = leb b'0' x && leb x b'9'

-- ID_PATTERN: eight hexadecimal digits
unfoldable pub is_valid_id : Option Value → Bool
is_valid_id (some (str s)) = length (codes s) == 8 && every hex_digit (codes s)
is_valid_id _ = false

-- VARIANT_ID_PATTERN: one to three digits
unfoldable pub matches_variant_id : String → Bool
matches_variant_id s = leb 1 (length (codes s)) && leb (length (codes s)) 3 && every digit (codes s)

unfoldable pub is_valid_variant_id : Option Value → Bool
unfolding matches_variant_id
is_valid_variant_id v = is_string v && matches_variant_id (text_of v)

-- `isValidVariantId(String(v))`: a number is printed in decimal, and an array of one value as it.
unfoldable pub prints_variant_id : Value → Bool
unfolding matches_variant_id
prints_variant_id (str s) = matches_variant_id s
prints_variant_id (num (nat n)) = leb n 999
prints_variant_id (arr (cons v nil)) = prints_variant_id v
prints_variant_id _ = false

abbrev pub is_finite : Option Value → Bool
is_finite (some (num infinity)) = false
is_finite (some (num minus_infinity)) = false
is_finite (some (num nan)) = false
is_finite (some (num n)) = true
is_finite _ = false

-- `Number.isInteger(v) && lo <= v && v <= hi`
abbrev pub integer_between : ℕ → ℕ → Option Value → Bool
integer_between lo hi (some (num n)) = is_integer n && num_ge n lo && num_le n hi
integer_between lo hi _ = false

-- `Number.isInteger(v) && v >= 0`
abbrev pub is_natural : Option Value → Bool
is_natural (some (num n)) = is_integer n && num_ge n 0
is_natural _ = false

abbrev pub mount_url_max_length : ℕ
mount_url_max_length = 2000

abbrev pub mount_error_max_length : ℕ
mount_error_max_length = 1000

abbrev pub is_longer : Option Value → ℕ → Bool
is_longer v n = ltb n (utf16_length (codes (text_of v)))

unfoldable pub validate_annotation_fields : Value → Verdict
unfolding get
validate_annotation_fields msg =
    if is_some (get "screenshotPath" msg) && not (is_string (get "screenshotPath" msg))
    then about "generate" "screenshotPath must be string"
    else if is_some (get "comments" msg) && not (is_array (get "comments" msg))
    then about "generate" "comments must be array"
    else if is_some (get "strokes" msg) && not (is_array (get "strokes" msg))
    then about "generate" "strokes must be array"
    else accepted

-- `strokes.some((s) => Array.isArray(s?.points) && s.points.length >= 2)`
abbrev pub has_stroke : Items → Bool
has_stroke nil = false
has_stroke (cons s rest) =
    let more = has_stroke rest in
    if is_array (get "points" s) && leb 2 (array_length (get "points" s)) then true else more

abbrev pub array_items : Option Value → Items
array_items (some (arr items)) = items
array_items _ = nil

-- canCreateInsert, of live/insert-ui.mjs
unfoldable pub can_create_insert : Option Value → Option Value → Option Value → Bool
can_create_insert prompt comments strokes =
    (is_string prompt && not (is_blank (text_of prompt)))
    || (is_array comments && ltb 0 (array_length comments))
    || has_stroke (array_items strokes)

-- `msg.insert.anchor` and the like, where the field is known to be an object.
abbrev pub get_in : Option Value → String → Option Value
get_in none key = none
get_in (some v) key = get key v

unfoldable pub validate_insert_generate : Value → Verdict
unfolding get can_create_insert validate_annotation_fields
validate_insert_generate msg =
    let insert = get "insert" msg in
    let anchor = get_in insert "anchor" in
    let placeholder = get "placeholder" msg in
    if not (truthy_field insert && is_object insert)
    then about "generate" "insert mode requires insert object"
    else if not (
        str_eq (text_of (get_in insert "position")) "before"
        || str_eq (text_of (get_in insert "position")) "after")
    then about "generate" "insert.position must be before or after"
    else if not (truthy_field anchor && is_object anchor)
    then about "generate" "insert.anchor required"
    else if not (
        truthy_field (get_in anchor "tagName")
        || truthy_field (get_in anchor "outerHTML")
        || (is_array (get_in anchor "classes") && ltb 0 (array_length (get_in anchor "classes"))))
    then about "generate" "insert.anchor needs tagName, classes, or outerHTML"
    else if not (truthy_field placeholder && is_object placeholder)
    then about "generate" "insert mode requires placeholder dimensions"
    else if not (is_finite (get_in placeholder "width") && is_finite (get_in placeholder "height"))
    then about "generate" "placeholder width and height must be numbers"
    else if not
        (can_create_insert (get "freeformPrompt" msg) (get "comments" msg) (get "strokes" msg))
    then about "generate" "insert requires freeformPrompt or annotations"
    else validate_annotation_fields msg

unfoldable pub validate_replace_generate : Value → Verdict
unfolding get validate_annotation_fields
validate_replace_generate msg =
    if not (is_string (get "action" msg) && has_text visual_actions (text_of (get "action" msg)))
    then about "generate" "invalid action"
    else if not (truthy_field (get_in (get "element" msg) "outerHTML"))
    then about "generate" "missing element context"
    else validate_annotation_fields msg
