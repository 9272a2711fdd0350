-- ===== src/Validation/Fields.antt =====
-- The fields of accepted messages, as the session store and the staged edits take them.
use mathlib.Core.Path.{subst}
use agent_bus.Shared.{
  Bool, Items, List, Option, String, Value, [], arith, cons, every, inl, inr, nat, nil, null, num,
  obj, refl, some, str, true, ℕ, ◌∷◌, ◌≡◌, ◌≤◌, ◌⊎◌, codes, arr, ◌&&◌, ◌+◌,
}
use agent_bus.Validation.{
  accepted, get, integer_between, is_string, is_valid_id, text_of, array_items, array_length,
  hex_digit, throws, is_object, items_length, truthy_field,
}
use agent_bus.Validation.Messages.{
  client_type, forbidden_chars, is_nil, is_true, validate_as, validate_event, validate_op,
  validate_ops, validate_manual_edit_event,
}
use agent_bus.Session.Store.{safe_session_id, is_id_char}
use agent_bus.Vocabulary.{variant_mount_failed, variant_mounted, EventType, manual_edits}
use agent_bus.Validation.Accepted.{event_as, failure-accepted, mount-accepted, natural_between}

-- The variant of an accepted message of the type `variant_mounted` or `variant_mount_failed` is a
-- number from 1 to 999.
pub accepted_variant :
    (msg : Value) (s : String)
    → validate_event msg ≡ accepted
    → get "type" msg ≡ some (str s)
    → (client_type s ≡ variant_mounted) ⊎ (client_type s ≡ variant_mount_failed)
    → (n : ℕ) × (get "variant" msg ≡ some (num (nat n))) × (1 ≤ n) × (n ≤ 999)
accepted_variant msg s h e t =
    natural_between 1 999 (get "variant" msg) (between t) (omega arith) (omega arith)
  where
    between :
        (client_type s ≡ variant_mounted) ⊎ (client_type s ≡ variant_mount_failed)
        → integer_between 1 999 (get "variant" msg) ≡ true
    between (inl p) =
        (mount-accepted msg (
          unfold validate_as in
          subst (λ (t : EventType). validate_as t msg ≡ accepted) p (event_as msg s h e))).1
    between (inr p) =
        (failure-accepted msg (
          unfold validate_as in
          subst (λ (t : EventType). validate_as t msg ≡ accepted) p (event_as msg s h e))).1

every_mono :
    (p q : ℕ → Bool) (xs : List ℕ)
    → ((x : ℕ) → p x ≡ true → q x ≡ true)
    → every p xs ≡ true
    → every q xs ≡ true
every_mono p q [] f h = refl
every_mono p q (x ∷ xs) f h = ground (arith, f x, every_mono p q xs f)

hex_digit-is_id_char : (x : ℕ) → hex_digit x ≡ true → is_id_char x ≡ true
unfolding is_id_char
hex_digit-is_id_char x h = ground arith

-- An id that the validator accepts is one that the store makes a file name of.
pub valid_id-safe : (v : Option Value) → is_valid_id v ≡ true → safe_session_id (text_of v) ≡ true
unfolding is_valid_id safe_session_id
valid_id-safe (some (str s)) h =
    ground (arith, every_mono hex_digit is_id_char (codes s) (λ x k. hex_digit-is_id_char x k))
valid_id-safe _ h = cc

-- What every operation of an accepted manual edit has: its three texts, a new text unless it is a
-- deletion, and no markup character in any new text.
abbrev pub IsPlainOp : Value → Type 0
IsPlainOp op =
    (is_string (get "ref" op) ≡ true)
    × (is_string (get "tag" op) ≡ true)
    × (is_string (get "originalText" op) ≡ true)
    × ((is_true (get "deleted" op) ≡ true) ⊎ (is_string (get "newText" op) ≡ true))
    × (is_string (get "newText" op) ≡ true → forbidden_chars (text_of (get "newText" op)) ≡ [])

abbrev pub AllPlain : Items → Type 0
AllPlain nil = Unit
AllPlain (cons op ops) = IsPlainOp op × AllPlain ops

is_nil→eq : (xs : List ℕ) → is_nil xs ≡ true → xs ≡ []
is_nil→eq [] h = refl
is_nil→eq (x ∷ xs) h = cc

plain_op : (label : String) (op : Value) → validate_op label op ≡ accepted → IsPlainOp op
unfolding validate_op
plain_op label null h = cc
plain_op label (obj fs) h =
    (ground arith, ground arith, ground arith, ground arith, λ k. is_nil→eq _ (ground arith))
plain_op label _ h = cc

plain_ops : (label : String) (ops : Items) → validate_ops label ops ≡ accepted → AllPlain ops
unfolding validate_ops
plain_ops label nil h = tt
plain_ops label (cons op ops) h =
    (plain_op label op (ground arith), plain_ops label ops (ground arith))

abbrev pub append_items : Items → Items → Items
append_items nil ys = ys
append_items (cons x xs) ys = cons x (append_items xs ys)

items_length-append :
    (xs ys : Items) → items_length (append_items xs ys) ≡ items_length xs + items_length ys
items_length-append nil ys = omega arith
items_length-append (cons x xs) ys = omega (arith, items_length-append xs ys)

manual_ops :
    (msg : Value)
    → validate_manual_edit_event msg "manual_edits" ≡ accepted
    → (1 ≤ array_length (get "ops" msg))
      × (array_length (get "ops" msg) ≤ 100)
      × AllPlain (array_items (get "ops" msg))
unfolding validate_manual_edit_event
manual_ops msg h = (
  ground arith,
  ground arith,
  plain_ops "manual_edits" (array_items (get "ops" msg)) (ground arith),
)

-- An accepted manual edit has at least one and at most 100 operations, and every one is plain.
pub accepted_edits :
    (msg : Value) (s : String)
    → validate_event msg ≡ accepted
    → get "type" msg ≡ some (str s)
    → client_type s ≡ manual_edits
    → (1 ≤ array_length (get "ops" msg))
      × (array_length (get "ops" msg) ≤ 100)
      × AllPlain (array_items (get "ops" msg))
accepted_edits msg s h e t =
    let a = subst (λ (k : EventType). validate_as k msg ≡ accepted) t (event_as msg s h e) in
    manual_ops msg (unfold validate_as in a)

null_op-throws :
    (label : String) (ops rest : Items)
    → validate_ops label ops ≡ accepted
    → validate_ops label (append_items ops (cons null rest)) ≡ throws
unfolding validate_ops
null_op-throws label nil rest h = unfold validate_op in refl
null_op-throws label (cons op ops) rest h = ground (arith, null_op-throws label ops rest)

-- A manual edit with an id, a page and an element, and with at most 100 operations of which one is
-- null behind operations that are accepted, makes the validator throw a TypeError instead of
-- returning a message.
pub manual_edit_throws :
    (msg : Value) (label : String) (ops rest : Items)
    → is_valid_id (get "id" msg) ≡ true
    → truthy_field (get "pageUrl" msg) && is_string (get "pageUrl" msg) ≡ true
    → truthy_field (get "element" msg) && is_object (get "element" msg) ≡ true
    → get "ops" msg ≡ some (arr (append_items ops (cons null rest)))
    → items_length (append_items ops (cons null rest)) ≤ 100
    → validate_ops label ops ≡ accepted
    → validate_manual_edit_event msg label ≡ throws
unfolding validate_manual_edit_event
manual_edit_throws msg label ops rest i p e o n h =
    ground (arith, null_op-throws label ops rest h, items_length-append ops (cons null rest))
