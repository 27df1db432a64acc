-- ===== src/Rules/Field.antt =====
-- rules/field.rs: the references `monitor:{uuid}:property` and `group:{uuid}:property`.
-- `Uuid::parse_str` is an argument.
pub mod RoundTrip
use Prim.Native.Char.{code}
use myccmonitor.Prelude.{
  ℕ, String, Bool, Option, none, some, List, [], ◌∷◌, if◌then◌else◌, ◌==◌, str_eq,
}
use myccmonitor.Json.{Uuid, Float}
use myccmonitor.Error.{
  Error, empty_field, missing_id, missing_property, too_many_colons, invalid_uuid, unknown_prefix,
  unknown_monitor_prop, unknown_group_prop, Result, ok, err, ◌>>=◌,
}

pub data MonitorProp : Type 0 where
  state message acknowledged cpu mem disk net_in net_out : MonitorProp

pub data GroupProp : Type 0 where
  state critical_count warning_count ok_count unknown_count total_count : GroupProp

pub data FieldRef : Type 0 where
  monitor : (id : Uuid) (prop : MonitorProp) → FieldRef
  group : (id : Uuid) (prop : GroupProp) → FieldRef

pub data FieldValue : Type 0 where
  string : String → FieldValue
  bool : Bool → FieldValue
  number : Float → FieldValue
  null : FieldValue

unfoldable pub metric_name : MonitorProp → Option String
metric_name cpu = some "cpu"
metric_name mem = some "mem"
metric_name disk = some "disk"
metric_name net_in = some "net_in"
metric_name net_out = some "net_out"
metric_name _ = none

-- `str::splitn(n, ':')`: at most n pieces, the last one with the colons that are left.
unfoldable pub cut_colon : String → String × Option String
cut_colon String.[] = (String.[], none)
cut_colon (String.◌∷◌ c s) =
    let (piece, rest) = cut_colon s in
    if code c == b':' then (String.[], some s) else (String.◌∷◌ c piece, rest)

unfoldable pub splitn : ℕ → String → List String
splitn ℕ.zero s = []
splitn (ℕ.suc ℕ.zero) s = s ∷ []
splitn (ℕ.suc (ℕ.suc n)) s =
    let (piece, rest) = cut_colon s in
    elim rest [ none ↦ piece ∷ [] | some r ↦ piece ∷ splitn (ℕ.suc n) r ]

unfoldable pub parse_monitor_prop : String → Result MonitorProp
parse_monitor_prop s =
    if str_eq s "state"
    then ok MonitorProp.state
    else if str_eq s "message"
    then ok message
    else if str_eq s "acknowledged"
    then ok acknowledged
    else if str_eq s "cpu"
    then ok cpu
    else if str_eq s "mem"
    then ok mem
    else if str_eq s "disk"
    then ok disk
    else if str_eq s "net_in"
    then ok net_in
    else if str_eq s "net_out"
    then ok net_out
    else err (unknown_monitor_prop s)

unfoldable pub parse_group_prop : String → Result GroupProp
parse_group_prop s =
    if str_eq s "state"
    then ok GroupProp.state
    else if str_eq s "critical_count"
    then ok critical_count
    else if str_eq s "warning_count"
    then ok warning_count
    else if str_eq s "ok_count"
    then ok ok_count
    else if str_eq s "unknown_count"
    then ok unknown_count
    else if str_eq s "total_count"
    then ok total_count
    else err (unknown_group_prop s)

-- `ref_pair`
unfoldable pub ref_pair : FieldRef → String × Uuid
ref_pair (monitor id prop) = ("monitor", id)
ref_pair (group id prop) = ("group", id)

module _ (parse_uuid : String → Option Uuid) where
  unfoldable pub parse_uuid_in : String → String → Result Uuid
  parse_uuid_in field id_str = elim (parse_uuid id_str) [
    | none ↦ err (invalid_uuid field)
    | some id ↦ ok id
  ]

  unfoldable pub parse_kind : String → Uuid → String → Result FieldRef
  unfolding parse_monitor_prop parse_group_prop
  parse_kind kind id prop_str =
      if str_eq kind "monitor"
      then (do prop ← parse_monitor_prop prop_str; ok (monitor id prop))
      else if str_eq kind "group"
      then (do prop ← parse_group_prop prop_str; ok (group id prop))
      else err (unknown_prefix kind)

  -- The pieces, by the calls of `parts.next()`.
  unfoldable pub parse_parts : String → List String → Result FieldRef
  unfolding parse_uuid_in parse_kind
  parse_parts field [] = err empty_field
  parse_parts field (kind ∷ []) = err missing_id
  parse_parts field (kind ∷ id_str ∷ []) = err missing_property
  parse_parts field (kind ∷ id_str ∷ prop_str ∷ []) = do
    id ← parse_uuid_in field id_str
    parse_kind kind id prop_str
  parse_parts field (kind ∷ id_str ∷ prop_str ∷ more ∷ rest) = err (too_many_colons field)

  unfoldable pub parse : String → Result FieldRef
  unfolding parse_parts splitn cut_colon
  parse field = parse_parts field (splitn 3 field)
