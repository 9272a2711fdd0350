-- ===== src/Examples/Messages.antt =====
-- Messages of the browser (live/event-validation.mjs).
use agent_bus.Validation.Fields.{AllPlain, accepted_edits, accepted_variant, manual_edit_throws}
use agent_bus.Shared.{
  Items, String, Value, arith, arr, cons, end, field, get_field, inl, nat, nil, null, num, obj,
  refl, some, str, true, ℕ, ◌≡◌, ◌≤◌,
}
use agent_bus.Validation.{accepted, array_items, array_length, get, is_valid_id, throws}
use agent_bus.Validation.Accepted.{accepted_type_and_id, is_client_type, needs_id}
use agent_bus.Validation.Messages.{
  client_type, validate_as, validate_event, validate_manual_edit_event, validate_mount_ack,
  validate_op, validate_ops,
}

abbrev mounted_message : Value
mounted_message = obj (
    field "type" (str "variant_mounted")
      (field "id" (str "a1b2c3d4") (field "variant" (num (nat 2)) end)))

abbrev plain_op : Value
plain_op = obj (
    field "ref" (str "1")
      (field "tag" (str "p") (field "originalText" (str "old") (field "newText" (str "new") end))))

abbrev edits_message : Items → Value
edits_message ops = obj (
    field "type" (str "manual_edits") (
      field "id" (str "a1b2c3d4")
        (field "pageUrl" (str "/") (field "element" (obj end) (field "ops" (arr ops) end)))))

mounted_message-accepted : validate_event mounted_message ≡ accepted
unfolding validate_event validate_as validate_mount_ack is_valid_id get get_field
mounted_message-accepted = refl

edits_message-accepted : validate_event (edits_message (cons plain_op nil)) ≡ accepted
unfolding validate_event validate_as validate_manual_edit_event validate_ops validate_op is_valid_id
    get get_field
edits_message-accepted = refl

plain_op-accepted : validate_ops "manual_edits" (cons plain_op nil) ≡ accepted
unfolding validate_ops validate_op get get_field
plain_op-accepted = refl

type_of_mounted : get "type" mounted_message ≡ some (str "variant_mounted")
unfolding get get_field
type_of_mounted = refl

type_of_edits : get "type" (edits_message (cons plain_op nil)) ≡ some (str "manual_edits")
unfolding get get_field
type_of_edits = refl

accepted_type_and_id_example :
    (s : String) × (get "type" mounted_message ≡ some (str s))
    × (is_client_type (client_type s) ≡ true)
    × (needs_id (client_type s) ≡ true → is_valid_id (get "id" mounted_message) ≡ true)
accepted_type_and_id_example = accepted_type_and_id mounted_message mounted_message-accepted

accepted_variant_example :
    (n : ℕ) × (get "variant" mounted_message ≡ some (num (nat n))) × (1 ≤ n) × (n ≤ 999)
accepted_variant_example =
    accepted_variant mounted_message "variant_mounted" mounted_message-accepted type_of_mounted
      (inl (unfold client_type in refl))

accepted_edits_example :
    (1 ≤ array_length (get "ops" (edits_message (cons plain_op nil))))
    × (array_length (get "ops" (edits_message (cons plain_op nil))) ≤ 100)
    × AllPlain (array_items (get "ops" (edits_message (cons plain_op nil))))
accepted_edits_example =
    accepted_edits (edits_message (cons plain_op nil)) "manual_edits" edits_message-accepted
      type_of_edits (unfold client_type in refl)

manual_edit_throws_example :
    validate_manual_edit_event (edits_message (cons plain_op (cons null nil))) "manual_edits"
    ≡ throws
manual_edit_throws_example =
    manual_edit_throws (edits_message (cons plain_op (cons null nil))) "manual_edits"
      (cons plain_op nil) nil (unfold is_valid_id get get_field in refl)
      (unfold get get_field in refl) (unfold get get_field in refl) (unfold get get_field in refl)
      (omega arith) plain_op-accepted
