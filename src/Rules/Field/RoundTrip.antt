-- ===== src/Rules/Field/RoundTrip.antt =====
-- rules/field.rs: parsing the references that the rule editor and the tests write.
use Prim.Native.Char.{code}
use Prim.Native.String.{◌++◌}
use text.Mathlib.TextLemmas.{nil-append, cons-append}
use myccmonitor.Prelude.{
  str_eq, if◌then◌else◌, Bool, true, ◌≡◌, ◌≢◌, refl, String, false, Option, some, [], ◌∷◌, arith,
  ◌==◌, Option-cases, inl, inr,
}
use myccmonitor.Json.{Uuid}
use myccmonitor.Error.{Error, too_many_colons, Result, ok, err, ◌>>=◌}
use myccmonitor.Rules.Field.{
  MonitorProp, message, acknowledged, cpu, mem, disk, net_in, net_out, GroupProp, critical_count,
  warning_count, ok_count, unknown_count, total_count, FieldRef, monitor, group, cut_colon, splitn,
  parse_monitor_prop, parse_group_prop, parse_uuid_in, parse_kind, parse_parts, parse,
}

abbrev pub monitor_prop_text : MonitorProp → String
monitor_prop_text MonitorProp.state = "state"
monitor_prop_text message = "message"
monitor_prop_text acknowledged = "acknowledged"
monitor_prop_text cpu = "cpu"
monitor_prop_text mem = "mem"
monitor_prop_text disk = "disk"
monitor_prop_text net_in = "net_in"
monitor_prop_text net_out = "net_out"

abbrev pub group_prop_text : GroupProp → String
group_prop_text GroupProp.state = "state"
group_prop_text critical_count = "critical_count"
group_prop_text warning_count = "warning_count"
group_prop_text ok_count = "ok_count"
group_prop_text unknown_count = "unknown_count"
group_prop_text total_count = "total_count"

abbrev colon : String → String
colon s = String.◌∷◌ ":" s

-- `format!("monitor:{id}:{prop}")` and `format!("group:{id}:{prop}")`
abbrev pub show_ref : (Uuid → String) → FieldRef → String
show_ref show_uuid (monitor id prop) =
    "monitor" ++ colon (show_uuid id ++ colon (monitor_prop_text prop))
show_ref show_uuid (group id prop) = "group" ++ colon (show_uuid id ++ colon (group_prop_text prop))

abbrev pub NoColon : String → Type 0
NoColon String.[] = Unit
NoColon (String.◌∷◌ c s) = ((code c == b':') ≡ false) × NoColon s

cut_colon-piece :
    (piece rest : String) → NoColon piece → cut_colon (piece ++ colon rest) ≡ (piece, some rest)
unfolding cut_colon
cut_colon-piece String.[] rest h = rw nil-append
cut_colon-piece (String.◌∷◌ c s) rest h = rw cons-append (rw (cut_colon-piece s rest h.1, h.0))

splitn_three :
    (a b c : String) → NoColon a → NoColon b → splitn 3 (a ++ colon (b ++ colon c)) ≡ a ∷ b ∷ c ∷ []
unfolding splitn
splitn_three a b c ha hb =
    ground (arith, cut_colon-piece a (b ++ colon c) (ha), cut_colon-piece b c (hb))

parse_monitor_prop-text : (p : MonitorProp) → parse_monitor_prop (monitor_prop_text p) ≡ ok p
unfolding parse_monitor_prop
parse_monitor_prop-text MonitorProp.state = refl
parse_monitor_prop-text _ = refl

parse_group_prop-text : (p : GroupProp) → parse_group_prop (group_prop_text p) ≡ ok p
unfolding parse_group_prop
parse_group_prop-text GroupProp.state = refl
parse_group_prop-text _ = refl

if_other :
    {A : Type 0} {e : Error} (b : Bool) {x y : Result A}
    → x ≢ err e
    → y ≢ err e
    → (if b then x else y) ≢ err e
if_other true hx hy = hx
if_other false hx hy = hy

map_other :
    {A B : Type 0} {e : Error} (r : Result A) (f : A → B)
    → r ≢ err e
    → (r >>= λ a. ok (f a)) ≢ err e
map_other (ok a) f h = λ p. cc
map_other (err x) f h = λ p. h (cc)

module _ (parse_uuid : String → Option Uuid) where
  parse_pieces :
      (r : FieldRef) (kind id prop : String)
      → splitn 3 (kind ++ colon (id ++ colon prop)) ≡ kind ∷ id ∷ prop ∷ []
      → parse_parts parse_uuid (kind ++ colon (id ++ colon prop)) (kind ∷ id ∷ prop ∷ []) ≡ ok r
      → parse parse_uuid (kind ++ colon (id ++ colon prop)) ≡ ok r
  unfolding parse
  parse_pieces r kind id prop e h = rw e h

  -- Parsing gives back the reference that was written, for each property of a monitor and of a
  -- group, if a written uuid has no colon and is read back as itself.
  pub parse-show_ref :
      (show_uuid : Uuid → String)
      → ((i : Uuid) → NoColon (show_uuid i))
      → ((i : Uuid) → parse_uuid (show_uuid i) ≡ some i)
      → (r : FieldRef) → parse parse_uuid (show_ref show_uuid r) ≡ ok r
  unfolding parse_parts
  parse-show_ref show_uuid plain back (monitor id prop) =
      parse_pieces (monitor id prop) "monitor" (show_uuid id) (monitor_prop_text prop)
        (splitn_three "monitor" (show_uuid id) (monitor_prop_text prop) (ground arith) (plain id))
        (rw (back id, parse_uuid_in, parse_monitor_prop-text prop, parse_kind) refl)
  parse-show_ref show_uuid plain back (group id prop) =
      parse_pieces (group id prop) "group" (show_uuid id) (group_prop_text prop)
        (splitn_three "group" (show_uuid id) (group_prop_text prop) (ground arith) (plain id))
        (rw (back id, parse_uuid_in, parse_group_prop-text prop, parse_kind) refl)

  parse_monitor_prop_error : (s f : String) → parse_monitor_prop s ≢ err (too_many_colons f)
  unfolding parse_monitor_prop
  parse_monitor_prop_error s f e = ground arith

  parse_group_prop_error : (s f : String) → parse_group_prop s ≢ err (too_many_colons f)
  unfolding parse_group_prop
  parse_group_prop_error s f e = ground arith

  parse_kind_error :
      (kind s f : String) (id : Uuid) → parse_kind parse_uuid kind id s ≢ err (too_many_colons f)
  unfolding parse_kind
  parse_kind_error kind s f id =
      if_other (str_eq kind "monitor")
        (map_other (parse_monitor_prop s) (monitor id) (parse_monitor_prop_error s f))
        (if_other (str_eq kind "group")
          (map_other (parse_group_prop s) (group id) (parse_group_prop_error s f)) (λ e. cc))

  parse_three_error :
      (field kind id_str s f : String)
      → parse_parts parse_uuid field (kind ∷ id_str ∷ s ∷ []) ≢ err (too_many_colons f)
  unfolding parse_parts
  parse_three_error field kind id_str s f e = elim (Option-cases (parse_uuid id_str)) [
    | inl p ↦ cc (rw (p, parse_uuid_in) at e)
    | inr (id, p) ↦ parse_kind_error kind s f id (rw (p, parse_uuid_in) at e)
  ]

  -- The error "too many ':'" is never returned: `splitn(3, ':')` leaves further colons in the
  -- third piece, which is then no property name.
  pub parse_ne_too_many_colons :
      (field f : String) → parse parse_uuid field ≢ err (too_many_colons f)
  unfolding parse
  parse_ne_too_many_colons field f e = elim (Option-cases (cut_colon field).1) [
    | inl p ↦ ground arith
    | inr (r, p) ↦ elim (Option-cases (cut_colon r).1) [
      | inl q ↦ ground arith
      | inr (t, q) ↦ ground (arith, parse_three_error field (cut_colon field).0 (cut_colon r).0 t f)
    ]
  ]
