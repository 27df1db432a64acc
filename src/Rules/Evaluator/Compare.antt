-- ===== src/Rules/Evaluator/Compare.antt =====
-- rules/evaluator.rs, `compare`.
pub mod Laws
use myccmonitor.Prelude.{
  ℕ, String, Bool, true, false, not, Option, none, some, ◌||◌, str_eq, str_starts_with,
}
use myccmonitor.Json.{Float, Json}
use myccmonitor.Rules.Condition.{CompOp, eq, neq, gt, gte, lt, lte, contains, not_contains}
use myccmonitor.Rules.Field.{FieldValue, string, bool, number, null}
use myccmonitor.Host.{FloatOps, Host}

abbrev pub bool_eq : Bool → Bool → Bool
bool_eq true b = b
bool_eq false b = not b

-- `str::contains`
unfoldable pub str_contains : String → String → Bool
str_contains String.[] t = str_starts_with String.[] t
str_contains (String.◌∷◌ c s) t = str_starts_with (String.◌∷◌ c s) t || str_contains s t

module _ (h : Host) where
  unfoldable pub compare_strings : String → CompOp → String → Bool
  compare_strings s eq t = str_eq s t
  compare_strings s neq t = not (str_eq s t)
  compare_strings s contains t = str_contains s t
  compare_strings s not_contains t = not (str_contains s t)
  compare_strings s _ t = false

  unfoldable pub compare_bools : Bool → CompOp → Bool → Bool
  compare_bools b eq t = bool_eq b t
  compare_bools b neq t = not (bool_eq b t)
  compare_bools b _ t = false

  -- `>` and `>=` of floats are `<` and `<=` the other way round.
  unfoldable pub compare_numbers : Float → CompOp → Float → Bool
  compare_numbers n eq t = h.float.lt (h.float.abs (h.float.sub n t)) h.float.epsilon
  compare_numbers n neq t = h.float.le h.float.epsilon (h.float.abs (h.float.sub n t))
  compare_numbers n gt t = h.float.lt t n
  compare_numbers n gte t = h.float.le t n
  compare_numbers n lt t = h.float.lt n t
  compare_numbers n lte t = h.float.le n t
  compare_numbers n _ t = false

  -- The last arm: values of different types.
  unfoldable pub compare_mismatched : FieldValue → CompOp → Json → Bool
  compare_mismatched live eq expected = str_eq (h.debug_value live) (h.debug_json expected)
  compare_mismatched live neq expected = not (str_eq (h.debug_value live) (h.debug_json expected))
  compare_mismatched live _ expected = false

  unfoldable pub compare_number_token : Float → CompOp → Option Float → Bool
  compare_number_token n op none = false
  compare_number_token n op (some t) = compare_numbers n op t

  unfoldable pub compare : FieldValue → CompOp → Json → Bool
  unfolding compare_strings compare_bools compare_numbers compare_mismatched compare_number_token
  compare null op expected = false
  compare (string s) op (Json.string t) = compare_strings s op t
  compare (bool b) op (Json.bool t) = compare_bools b op t
  compare (number n) op (Json.number t) = compare_number_token n op (h.as_f64 t)
  compare live op expected = compare_mismatched live op expected
