-- ===== src/Rules/Evaluator/Compare/Laws.antt =====
-- rules/evaluator.rs: when the negated operators are the negations of the others.
use myccmonitor.Prelude.{◌≡◌, ◌≢◌, refl, true, not, Option, none, some}
use myccmonitor.Json.{Float, Json}
use myccmonitor.Rules.Condition.{CompOp, eq, neq, gt, gte, lt, lte, contains, not_contains}
use myccmonitor.Rules.Field.{FieldValue, string, bool, number, null}
use myccmonitor.Host.{Host}
use myccmonitor.Rules.Evaluator.Compare.{compare, compare_number_token, compare_numbers}

-- What `is_some` says of the number of a JSON value.
abbrev pub IsReadable : Host → Json → Type 0
IsReadable h (Json.number t) = h.as_f64 t ≢ none
IsReadable h _ = Unit

abbrev IsTotal : Host → Type 0
IsTotal h = (x y : Float) → h.float.le y x ≡ not (h.float.lt x y)

module _ (h : Host) where
  compare_numbers-neq :
      IsTotal h → (n t : Float) → compare_numbers h n neq t ≡ not (compare_numbers h n eq t)
  unfolding compare_numbers
  compare_numbers-neq total n t = total (h.float.abs (h.float.sub n t)) h.float.epsilon

  token-neq :
      IsTotal h
      → (n : Float) (o : Option Float) → o ≢ none
      → compare_number_token h n neq o ≡ not (compare_number_token h n eq o)
  unfolding compare_number_token
  token-neq total n none r = absurd (r refl)
  token-neq total n (some t) r = compare_numbers-neq total n t

  -- `!=` is the negation of `==` for a live value that is not null, if an expected number can be
  -- read as a float and no comparison of floats meets a NaN.
  pub compare-neq :
      ((x y : Float) → h.float.le y x ≡ not (h.float.lt x y))
      → (live : FieldValue) (expected : Json) → live ≢ null
      → IsReadable h expected
      → compare h live neq expected ≡ not (compare h live eq expected)
  unfolding compare
  compare-neq total null expected l r = absurd (l refl)
  compare-neq total (number n) (Json.number t) l r = token-neq total n (h.as_f64 t) r
  compare-neq total (string s) (Json.string t) l r = refl
  compare-neq total (bool b) (Json.bool t) l r = refl
  compare-neq total _ _ l r = refl

  -- The values for which an operator other than `==` and `!=` can hold.
  abbrev pub Fits : CompOp → FieldValue → Json → Type 0
  Fits contains (string s) (Json.string t) = Unit
  Fits not_contains (string s) (Json.string t) = Unit
  Fits gt (number n) (Json.number t) = Unit
  Fits gte (number n) (Json.number t) = Unit
  Fits lt (number n) (Json.number t) = Unit
  Fits lte (number n) (Json.number t) = Unit
  Fits eq _ _ = Unit
  Fits neq _ _ = Unit
  Fits _ _ _ = ⊥

  compare_numbers_misfit :
      (n : Float) (o : Option Float)
      → ((compare_number_token h n contains o ≡ true) → ⊥)
        × ((compare_number_token h n not_contains o ≡ true) → ⊥)
  unfolding compare_number_token compare_numbers
  compare_numbers_misfit n none = ((λ e. cc), (λ e. cc))
  compare_numbers_misfit n (some t) = ((λ e. cc), (λ e. cc))

  -- A comparison other than `==` and `!=` holds only between two texts (`contains` and its
  -- negation) or between two numbers (the orders).
  pub compare-Fits :
      (op : CompOp) (live : FieldValue) (expected : Json)
      → compare h live op expected ≡ true
      → Fits op live expected
  unfolding compare
  compare-Fits eq live expected e = tt
  compare-Fits neq live expected e = tt
  compare-Fits contains (string s) (Json.string t) e = tt
  compare-Fits not_contains (string s) (Json.string t) e = tt
  compare-Fits gt (number n) (Json.number t) e = tt
  compare-Fits gte (number n) (Json.number t) e = tt
  compare-Fits lt (number n) (Json.number t) e = tt
  compare-Fits lte (number n) (Json.number t) e = tt
  compare-Fits _ (string s) (Json.string t) e = cc
  compare-Fits _ (bool b) (Json.bool t) e = cc
  compare-Fits contains (number n) (Json.number t) e = (compare_numbers_misfit n (h.as_f64 t)).0 e
  compare-Fits not_contains (number n) (Json.number t) e =
      (compare_numbers_misfit n (h.as_f64 t)).1 e
  compare-Fits _ _ _ e = cc
