-- ===== src/Validation/Messages.antt =====
-- live/event-validation.mjs: the validators of whole messages.
use agent_bus.Shared.{
  Bool, Items, List, Option, String, Value, [], bool, codes, cons, false, filter, if◌then◌else◌,
  includes, is_blank, is_some, ltb, nil, none, not, null, num, num_ge, obj, some, str, str_eq, true,
  ℕ, ◌&&◌, ◌==◌, ◌||◌, ◌∷◌,
}
use agent_bus.Vocabulary.{
  EventType, accept, agent_phase, agent_phases, carbonize_cleanup, checkpoint, discard, exit,
  generate, has_text, manual_edits, other, other_text, prefetch, steer, variant_mount_failed,
  variant_mounted,
}
use agent_bus.Validation.{
  unknown_event_type, Verdict, about, accepted, array_items, array_length, forbidden_text, get,
  integer_between, is_array, is_finite, is_longer, is_natural, is_object, is_string, is_valid_id,
  is_valid_variant_id, missing_message, mount_error_max_length, mount_url_max_length,
  prints_variant_id, text_of, throws, truthy_field, unknown_phase, validate_insert_generate,
  validate_replace_generate,
}

-- `['<', '{', '}', '`'].filter((char) => newText.includes(char))`
abbrev pub forbidden_chars : String → List ℕ
forbidden_chars s = filter (λ x. includes x (codes s)) (b'<' ∷ b'{' ∷ b'}' ∷ b'`' ∷ [])

abbrev pub is_true : Option Value → Bool
is_true (some (bool b)) = b
is_true _ = false

abbrev pub is_nil : List ℕ → Bool
is_nil [] = true
is_nil (x ∷ xs) = false

-- The tests of a text operation; `op.ref` of null is a TypeError.
unfoldable pub validate_op : String → Value → Verdict
unfolding get
validate_op label null = throws
validate_op label op =
    let new_text = get "newText" op in
    let deleted = is_true (get "deleted" op) in
    if not (is_string (get "ref" op))
    then about label "op.ref required"
    else if not (is_string (get "tag" op))
    then about label "op.tag required"
    else if not (is_string (get "originalText" op))
    then about label "op.originalText required"
    else if not deleted && not (is_string new_text)
    then about label "text op requires newText"
    else if is_string new_text && (not deleted && is_blank (text_of new_text))
    then about label "newText cannot be empty"
    else if is_string new_text && not (is_nil (forbidden_chars (text_of new_text)))
    then forbidden_text label (forbidden_chars (text_of new_text))
    else accepted

-- The loop over the operations, up to the first that is refused.
unfoldable pub validate_ops : String → Items → Verdict
unfolding validate_op
validate_ops label nil = accepted
validate_ops label (cons op ops) =
    let rest = validate_ops label ops in elim (validate_op label op) [ accepted ↦ rest | v ↦ v ]

unfoldable pub validate_manual_edit_event : Value → String → Verdict
unfolding get is_valid_id validate_ops
validate_manual_edit_event msg label =
    let ops = get "ops" msg in
    if not (is_valid_id (get "id" msg))
    then about label "missing or malformed id"
    else if not (truthy_field (get "pageUrl" msg) && is_string (get "pageUrl" msg))
    then about label "missing pageUrl"
    else if not (truthy_field (get "element" msg) && is_object (get "element" msg))
    then about label "missing element"
    else if not (is_array ops) || array_length ops == 0
    then about label "ops must be non-empty array"
    else if ltb 100 (array_length ops)
    then about label "too many ops (max 100)"
    else validate_ops label (array_items ops)

unfoldable pub validate_mount_ack : Value → Verdict
unfolding get is_valid_id
validate_mount_ack msg =
    let url = get "url" msg in
    if not (is_valid_id (get "id" msg))
    then about "variant_mounted" "missing or malformed id"
    else if not (integer_between 1 999 (get "variant" msg))
    then about "variant_mounted" "variant must be an integer 1-999"
    else if is_some url && not (is_string url)
    then about "variant_mounted" "url must be string"
    else if is_some url && is_longer url mount_url_max_length
    then about "variant_mounted" "url too long"
    else accepted

unfoldable pub validate_mount_failure : Value → Verdict
unfolding get is_valid_id
validate_mount_failure msg =
    let url = get "url" msg in
    let error = get "error" msg in
    if not (is_valid_id (get "id" msg))
    then about "variant_mount_failed" "missing or malformed id"
    else if not (integer_between 1 999 (get "variant" msg))
    then about "variant_mount_failed" "variant must be an integer 1-999"
    else if not (is_string url) || is_blank (text_of url)
    then about "variant_mount_failed" "url required"
    else if is_longer url mount_url_max_length
    then about "variant_mount_failed" "url too long"
    else if not (is_string error) || is_blank (text_of error)
    then about "variant_mount_failed" "error required"
    else if is_longer error mount_error_max_length
    then about "variant_mount_failed" "error too long"
    else accepted

-- `v !== undefined && (typeof v !== 'object' || v === null || Array.isArray(v))`
abbrev pub is_bad_object : Option Value → Bool
is_bad_object none = false
is_bad_object (some (obj fields)) = false
is_bad_object _ = true

unfoldable pub validate_generate : Value → Verdict
unfolding get is_valid_id validate_insert_generate validate_replace_generate
validate_generate msg =
    if not (is_valid_id (get "id" msg))
    then about "generate" "missing or malformed id"
    else if not (integer_between 1 8 (get "count" msg))
    then about "generate" "count must be 1-8"
    else if str_eq (text_of (get "mode" msg)) "insert"
    then validate_insert_generate msg
    else validate_replace_generate msg

unfoldable pub validate_accept : Value → Verdict
unfolding get is_valid_id is_valid_variant_id
validate_accept msg =
    if not (is_valid_id (get "id" msg))
    then about "accept" "missing or malformed id"
    else if not (is_valid_variant_id (get "variantId" msg))
    then about "accept" "missing or malformed variantId"
    else if is_bad_object (get "paramValues" msg)
    then about "accept" "paramValues must be an object"
    else accepted

unfoldable pub validate_checkpoint : Value → Verdict
unfolding get is_valid_id
validate_checkpoint msg =
    if not (is_valid_id (get "id" msg))
    then about "checkpoint" "missing or malformed id"
    else if not (is_natural (get "revision" msg))
    then about "checkpoint" "revision must be a non-negative integer"
    else if is_bad_object (get "paramValues" msg)
    then about "checkpoint" "paramValues must be an object"
    else accepted

-- `v !== undefined && (!Number.isFinite(v) || v < 0)`
abbrev pub is_bad_duration : Option Value → Bool
is_bad_duration none = false
is_bad_duration (some (num n)) = not (is_finite (some (num n)) && num_ge n 0)
is_bad_duration _ = true

unfoldable pub validate_agent_phase : Value → Verdict
unfolding get is_valid_id
validate_agent_phase msg =
    let phase = get "phase" msg in
    if not (is_valid_id (get "id" msg))
    then about "agent_phase" "missing or malformed id"
    else if not (is_string phase) || str_eq (text_of phase) ""
    then about "agent_phase" "missing phase"
    else if not (has_text agent_phases (text_of phase))
    then unknown_phase (text_of phase)
    else if is_bad_duration (get "durationMs" msg)
    then about "agent_phase" "durationMs must be a non-negative number"
    else accepted

unfoldable pub validate_steer : Value → Verdict
unfolding get is_valid_id
validate_steer msg =
    let message = get "message" msg in
    if not (is_valid_id (get "id" msg))
    then about "steer" "missing or malformed id"
    else if not (is_string message) || is_blank (text_of message)
    then about "steer" "message required"
    else if is_longer message 4000
    then about "steer" "message too long"
    else if is_some (get "pageUrl" msg) && not (is_string (get "pageUrl" msg))
    then about "steer" "pageUrl must be string"
    else accepted

-- `String(undefined)` is "undefined", which is no variant id.
abbrev pub prints_field : Option Value → Bool
prints_field none = false
prints_field (some v) = prints_variant_id v

unfoldable pub validate_carbonize_cleanup : Value → Verdict
unfolding get is_valid_id prints_variant_id
validate_carbonize_cleanup msg =
    if not (is_valid_id (get "id" msg))
    then about "carbonize_cleanup" "missing or malformed id"
    else if not (is_valid_id (get "sessionId" msg))
    then about "carbonize_cleanup" "missing or malformed sessionId"
    else if not (truthy_field (get "file" msg) && is_string (get "file" msg))
    then about "carbonize_cleanup" "missing file"
    else if not (prints_field (get "variantId" msg))
    then about "carbonize_cleanup" "missing or malformed variantId"
    else accepted

-- The text of msg.type as an event type.
unfoldable pub client_type : String → EventType
client_type s =
    if str_eq s "generate"
    then generate
    else if str_eq s "accept"
    then accept
    else if str_eq s "discard"
    then discard
    else if str_eq s "checkpoint"
    then checkpoint
    else if str_eq s "agent_phase"
    then agent_phase
    else if str_eq s "variant_mounted"
    then variant_mounted
    else if str_eq s "variant_mount_failed"
    then variant_mount_failed
    else if str_eq s "exit"
    then exit
    else if str_eq s "prefetch"
    then prefetch
    else if str_eq s "manual_edits"
    then manual_edits
    else if str_eq s "steer"
    then steer
    else if str_eq s "carbonize_cleanup"
    then carbonize_cleanup
    else other s

-- The `switch` of validateEvent.
unfoldable pub validate_as : EventType → Value → Verdict
unfolding get is_valid_id
validate_as generate msg = validate_generate msg
validate_as accept msg = validate_accept msg
validate_as discard msg =
    if is_valid_id (get "id" msg) then accepted else about "discard" "missing or malformed id"
validate_as checkpoint msg = validate_checkpoint msg
validate_as agent_phase msg = validate_agent_phase msg
validate_as variant_mounted msg = validate_mount_ack msg
validate_as variant_mount_failed msg = validate_mount_failure msg
validate_as exit msg = accepted
validate_as prefetch msg =
    if truthy_field (get "pageUrl" msg) && is_string (get "pageUrl" msg)
    then accepted
    else about "prefetch" "missing pageUrl"
validate_as manual_edits msg = validate_manual_edit_event msg "manual_edits"
validate_as steer msg = validate_steer msg
validate_as carbonize_cleanup msg = validate_carbonize_cleanup msg
validate_as t msg = unknown_event_type (str (other_text t))

-- A type that is no text is none of the cases.
unfoldable pub validate_event : Value → Verdict
unfolding get client_type validate_as
validate_event msg =
    if not (truthy_field (get "type" msg)) then missing_message else elim (get "type" msg) [
      | some (str s) ↦ validate_as (client_type s) msg
      | some v ↦ unknown_event_type v
      | none ↦ missing_message
    ]
