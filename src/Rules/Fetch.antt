-- ===== src/Rules/Fetch.antt =====
-- rules/field.rs, the live value of a field: `EvalCtx`, `fetch`, `state_held_for`, and
-- groups/rollup.rs, `compute_view`, with its query.
use myccmonitor.Prelude.{String, Bool, false, not, Option, none, some, List, if◌then◌else◌, str_eq}
use myccmonitor.Prelude.Int.{ℤ, ltb_ℤ}
use myccmonitor.Json.{Uuid}
use myccmonitor.Task.{◌>>=◌, pure}
use myccmonitor.World.{Async, select, utc_now}
use myccmonitor.Host.{Host}
use myccmonitor.Store.Rows.{Monitor, HistoryRow, MetricReading, MonitorGroup}
use myccmonitor.Store.Monitors.{find_by_id_for_user, list_for_user, latest_owned_change}
use myccmonitor.Store.Readings.{latest_reading}
use myccmonitor.Store.Groups.{find_group, manual_members}
use myccmonitor.Groups.Rollup.{RolledState, ok, warning, critical, unknown, GroupView, view_of}
use myccmonitor.Rules.Field.{
  MonitorProp, message, acknowledged, GroupProp, critical_count, warning_count, ok_count,
  unknown_count, total_count, FieldRef, monitor, group, FieldValue, string, bool, number, null,
  metric_name,
}
use myccmonitor.Rules.Cooldown.{seconds_since}

-- `EvalCtx::monitors`, filled at most once.
abbrev pub Cache : Type 0
Cache = Option (List Monitor)

unfoldable pub user_monitors : Uuid → Cache → Async (List Monitor)
user_monitors user_id (some ms) = pure ms
user_monitors user_id none = select (list_for_user user_id)

-- `format!("{:?}", view.rolled_state).to_lowercase()`
unfoldable pub rolled_text : RolledState → String
rolled_text ok = "ok"
rolled_text warning = "warning"
rolled_text critical = "critical"
rolled_text unknown = "unknown"

unfoldable pub text_or_null : Option String → FieldValue
text_or_null none = null
text_or_null (some s) = string s

unfoldable pub state_value : Option Monitor → FieldValue
state_value none = null
state_value (some m) = string m.current_state

unfoldable pub message_value : Option Monitor → FieldValue
unfolding text_or_null
message_value none = null
message_value (some m) = text_or_null m.current_message

unfoldable pub acknowledged_value : Option Monitor → FieldValue
acknowledged_value none = null
acknowledged_value (some m) = bool m.acknowledged

unfoldable pub reading_value : Option MetricReading → FieldValue
reading_value none = null
reading_value (some r) = number r.value

-- `map.get(key)` on `latest_per_metric`; a property with no key never gets here.
unfoldable pub latest_value : Uuid → Option String → Async FieldValue
unfolding reading_value
latest_value monitor_id none = pure null
latest_value monitor_id (some key) = do
  r ← select (latest_reading monitor_id key)
  pure (reading_value r)

unfoldable pub fetch_monitor : Uuid → Uuid → MonitorProp → Async FieldValue
unfolding state_value message_value acknowledged_value latest_value
fetch_monitor user_id monitor_id MonitorProp.state = do
  m ← select (find_by_id_for_user user_id monitor_id)
  pure (state_value m)
fetch_monitor user_id monitor_id message = do
  m ← select (find_by_id_for_user user_id monitor_id)
  pure (message_value m)
fetch_monitor user_id monitor_id acknowledged = do
  m ← select (find_by_id_for_user user_id monitor_id)
  pure (acknowledged_value m)
fetch_monitor user_id monitor_id prop = latest_value monitor_id (metric_name prop)

module _ (h : Host) where
  unfoldable pub compute_view : Uuid → MonitorGroup → List Monitor → Async GroupView
  compute_view user_id g ms = do
    manual ← select (manual_members g.id)
    pure (view_of h.decode_auto_rules h.compile_regex user_id g manual ms)

  unfoldable pub group_value : GroupProp → GroupView → FieldValue
  unfolding rolled_text
  group_value GroupProp.state v = string (rolled_text v.rolled_state)
  group_value critical_count v = number (h.float.of_u32 v.state_breakdown.critical)
  group_value warning_count v = number (h.float.of_u32 v.state_breakdown.warning)
  group_value ok_count v = number (h.float.of_u32 v.state_breakdown.ok)
  group_value unknown_count v = number (h.float.of_u32 v.state_breakdown.unknown)
  group_value total_count v = number (h.float.of_u32 v.state_breakdown.total)

  unfoldable pub fetch_found_group :
      Uuid → Cache → GroupProp → Option MonitorGroup → Async (FieldValue × Cache)
  unfolding user_monitors compute_view group_value
  fetch_found_group user_id cache prop none = pure (null, cache)
  fetch_found_group user_id cache prop (some g) = do
    ms ← user_monitors user_id cache
    view ← compute_view user_id g ms
    pure (group_value prop view, some ms)

  unfoldable pub fetch_group : Uuid → Cache → Uuid → GroupProp → Async (FieldValue × Cache)
  unfolding fetch_found_group
  fetch_group user_id cache group_id prop = do
    g ← select (find_group user_id group_id)
    fetch_found_group user_id cache prop g

  unfoldable pub fetch : Uuid → Cache → FieldRef → Async (FieldValue × Cache)
  unfolding fetch_monitor fetch_group
  fetch user_id cache (monitor id prop) = do v ← fetch_monitor user_id id prop; pure (v, cache)
  fetch user_id cache (group id prop) = fetch_group user_id cache id prop

-- The `match row` of `state_held_for`; the clock is read only for a row in the state.
unfoldable pub held_since : Option HistoryRow → String → ℤ → Async Bool
held_since none state_name seconds = pure false
held_since (some r) state_name seconds =
    if str_eq r.state state_name
    then (do now ← utc_now; pure (not (ltb_ℤ (seconds_since now r.changed_at) seconds)))
    else pure false

unfoldable pub state_held_for : Uuid → Uuid → String → ℤ → Async Bool
unfolding held_since
state_held_for user_id monitor_id state_name seconds = do
  row ← select (latest_owned_change user_id monitor_id)
  held_since row state_name seconds
