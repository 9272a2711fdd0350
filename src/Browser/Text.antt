-- ===== src/Browser/Text.antt =====
-- What JSON.stringify and JSON.parse keep of a value (live-browser-session.js).
use agent_bus.Shared.{
  Value, Fields, Items, Num, Bool, false, true, refl, ◌≡◌, ◌&&◌, ap, to_json, to_json_fields,
  to_json_items,
}
use mathlib.Core.Bool.{false≢true}

both : (a b : Bool) → (a && b) ≡ true → (a ≡ true) × (b ≡ true)
both true b h = (refl, h)
both false b h = absurd (false≢true h)

-- A value that has only finite numbers in it, at any depth.
unfoldable mutual
  pub is_finite_value : Value → Bool
  is_finite_value (Value.num Num.infinity) = false
  is_finite_value (Value.num Num.minus_infinity) = false
  is_finite_value (Value.num Num.nan) = false
  is_finite_value (Value.obj fields) = are_finite_fields fields
  is_finite_value (Value.arr items) = are_finite_items items
  is_finite_value v = true

  pub are_finite_fields : Fields → Bool
  are_finite_fields Fields.end = true
  are_finite_fields (Fields.field k v fs) = is_finite_value v && are_finite_fields fs

  pub are_finite_items : Items → Bool
  are_finite_items Items.nil = true
  are_finite_items (Items.cons v vs) = is_finite_value v && are_finite_items vs

mutual
  unfolding to_json is_finite_value

  pub to_json-same : (v : Value) → is_finite_value v ≡ true → to_json v ≡ v
  to_json-same (Value.num (Num.nat n)) h = refl
  to_json-same (Value.num (Num.frac n)) h = refl
  to_json-same (Value.num (Num.below_zero b)) h = refl
  to_json-same (Value.num Num.infinity) h = absurd (false≢true h)
  to_json-same (Value.num Num.minus_infinity) h = absurd (false≢true h)
  to_json-same (Value.num Num.nan) h = absurd (false≢true h)
  to_json-same (Value.obj fields) h = ap Value.obj (to_json_fields-same fields h)
  to_json-same (Value.arr items) h = ap Value.arr (to_json_items-same items h)
  to_json-same (Value.str s) h = refl
  to_json-same (Value.bool b) h = refl
  to_json-same Value.null h = refl

  to_json_fields-same : (fs : Fields) → are_finite_fields fs ≡ true → to_json_fields fs ≡ fs
  to_json_fields-same Fields.end h = refl
  to_json_fields-same (Fields.field k v fs) h =
      let (a, b) = both (is_finite_value v) (are_finite_fields fs) h in
      λ i. Fields.field k (to_json-same v a i) (to_json_fields-same fs b i)

  to_json_items-same : (vs : Items) → are_finite_items vs ≡ true → to_json_items vs ≡ vs
  to_json_items-same Items.nil h = refl
  to_json_items-same (Items.cons v vs) h =
      let (a, b) = both (is_finite_value v) (are_finite_items vs) h in
      λ i. Items.cons (to_json-same v a i) (to_json_items-same vs b i)
