-- ===== src/Shared/Json.antt =====
-- JavaScript numbers and JSON values, as the live helpers test them.
use Prim.Native.Nat.{ℕ}
use Prim.Native.String.{String}
use mathlib.Core.Bool.{Bool, true, false, not}
use mathlib.Core.Option.{Option, none, some}
use text.Mathlib.Text.{◌==◌ as str_eq}
use agent_bus.Shared.Tests.{leb, ltb, ◌==◌, if◌then◌else◌}

-- `nat n` is n, `below_zero` any finite number under 0, and `frac n` a number strictly between n and n + 1:
-- what `Number.isInteger`, `Number.isFinite` and the comparisons with a natural number tell apart.
pub data Num : Type 0 where
  nat : ℕ → Num
  frac : ℕ → Num
  below_zero : Bool → Num
  infinity minus_infinity nan : Num

-- `Number.isInteger`; `below_zero true` is an integer.
abbrev pub is_integer : Num → Bool
is_integer (nat n) = true
is_integer (below_zero b) = b
is_integer _ = false

-- `x >= k` for a natural number k
abbrev pub num_ge : Num → ℕ → Bool
num_ge (nat n) k = leb k n
num_ge (frac n) k = leb k n
num_ge infinity k = true
num_ge _ k = false

-- `x <= k` for a natural number k
abbrev pub num_le : Num → ℕ → Bool
num_le (nat n) k = leb n k
num_le (frac n) k = ltb n k
num_le (below_zero b) k = true
num_le minus_infinity k = true
num_le _ k = false

-- A value that `JSON.parse` returns. A key that an object lacks is `none`, as in `get`.
mutual
  pub data Fields : Type 0 where
    end : Fields
    field : String → Value → Fields → Fields

  pub data Value : Type 0 where
    obj : Fields → Value
    arr : Items → Value
    str : String → Value
    num : Num → Value
    bool : Bool → Value
    null : Value

  pub data Items : Type 0 where
    cons : Value → Items → Items
    nil : Items

-- `o.key`, own keys only; the last of two equal keys wins in `JSON.parse`, so no key stands twice.
unfoldable pub get_field : String → Fields → Option Value
get_field k end = none
get_field k (field j v fs) = let rest = get_field k fs in if str_eq j k then some v else rest

-- `Boolean(v)`
abbrev pub truthy_value : Value → Bool
truthy_value null = false
truthy_value (bool b) = b
truthy_value (num (nat n)) = not (n == 0)
truthy_value (num nan) = false
truthy_value (str s) = not (str_eq s "")
truthy_value _ = true

-- What `JSON.parse(JSON.stringify(v))` gives: a number that is not finite is written as null. A value
-- has no undefined in it: a key that holds undefined is a key that is not there.
unfoldable mutual
  pub to_json : Value → Value
  to_json (num infinity) = null
  to_json (num minus_infinity) = null
  to_json (num nan) = null
  to_json (obj fields) = obj (to_json_fields fields)
  to_json (arr items) = arr (to_json_items items)
  to_json v = v

  pub to_json_fields : Fields → Fields
  to_json_fields end = end
  to_json_fields (field k v fs) = field k (to_json v) (to_json_fields fs)

  pub to_json_items : Items → Items
  to_json_items nil = nil
  to_json_items (cons v vs) = cons (to_json v) (to_json_items vs)

-- `v || null`
abbrev pub value_or_null : Option Value → Option Value
value_or_null none = none
value_or_null (some v) = if truthy_value v then some v else none

-- `a === b` on numbers that may be absent; two numbers below 0, or two with the same floor, are not
-- told apart, and NaN is no number's equal.
abbrev pub num_eq : Option Num → Option Num → Bool
num_eq none none = true
num_eq (some (nat a)) (some (nat b)) = a == b
num_eq (some (frac a)) (some (frac b)) = a == b
num_eq (some (below_zero a)) (some (below_zero b)) = true
num_eq (some infinity) (some infinity) = true
num_eq _ _ = false
