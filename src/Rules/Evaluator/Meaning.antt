-- ===== src/Rules/Evaluator/Meaning.antt =====
-- What a condition of rules/condition.rs means on a database at an instant: without order, cache or
-- early exit.
pub mod Refinement
use myccmonitor.Prelude.{
  ℕ, ◌≡◌, refl, sym, ◌∙◌, String, Bool, true, false, not, ◌&&◌, ◌||◌, Option, none, some, List,
  if◌then◌else◌, str_eq, Bool-cases, inl, inr,
}
use myccmonitor.Prelude.Int.{ℤ, ltb_ℤ}
use myccmonitor.Json.{Uuid, Instant, Json}
use myccmonitor.Error.{Error, Result, ok, err}
use myccmonitor.Task.{◌>>=◌, pure, run}
use myccmonitor.World.{Oracle, World, Async, select, utc_now}
use myccmonitor.World.Steady.{
  IsSteady, at, Answers, Answers-pure, Answers-bind, Answers-if, Answers-select, Answers-utc_now,
}
use myccmonitor.Host.{Host}
use myccmonitor.Store.Rows.{Monitor, HistoryRow, MonitorGroup}
use myccmonitor.Store.Tables.{Db}
use myccmonitor.Store.Monitors.{find_by_id_for_user, list_for_user, latest_owned_change}
use myccmonitor.Store.Readings.{keep_n_per_metric, latest_reading, recent_readings}
use myccmonitor.Store.Groups.{find_group, manual_members}
use myccmonitor.Groups.Rollup.{view_of}
use myccmonitor.Rules.Cooldown.{seconds_since}
use myccmonitor.Rules.Condition.{
  CompOp, eq, neq, LogicalOp, and, or, DurationSpec, Condition, comparison, logical, Children,
  no_child, child,
}
use myccmonitor.Rules.Field.{
  MonitorProp, GroupProp, FieldRef, monitor, group, FieldValue, null, metric_name, parse,
}
use myccmonitor.Rules.Fetch.{
  Cache, user_monitors, state_value, message_value, acknowledged_value, reading_value, latest_value,
  fetch_monitor, compute_view, group_value, fetch_found_group, fetch_group, fetch, held_since,
  state_held_for,
}
use myccmonitor.Rules.Evaluator.Compare.{compare}
use myccmonitor.Rules.Evaluator.Held.{metric_held}
use myccmonitor.Rules.Evaluator.Evaluate.{
  as_i64, state_check, metric_check, time_check, check_duration, evaluate_field, evaluate,
  evaluate_all, evaluate_any,
}

module _ (h : Host) (u : Uuid) (db : Db) (now : Instant) where
  unfoldable pub metric_field : Uuid → Option String → FieldValue
  metric_field id none = null
  metric_field id (some key) = reading_value (latest_reading id key db)

  unfoldable pub monitor_field : Uuid → MonitorProp → FieldValue
  unfolding metric_field
  monitor_field id MonitorProp.state = state_value (find_by_id_for_user u id db)
  monitor_field id MonitorProp.message = message_value (find_by_id_for_user u id db)
  monitor_field id MonitorProp.acknowledged = acknowledged_value (find_by_id_for_user u id db)
  monitor_field id prop = metric_field id (metric_name prop)

  unfoldable pub group_field : Option MonitorGroup → GroupProp → FieldValue
  group_field none prop = null
  group_field (some g) prop = group_value h prop (
      view_of h.decode_auto_rules h.compile_regex u g (manual_members g.id db) (list_for_user u db))

  unfoldable pub field_value : FieldRef → FieldValue
  unfolding monitor_field group_field
  field_value (monitor id prop) = monitor_field id prop
  field_value (group id prop) = group_field (find_group u id db) prop

  unfoldable pub state_held : Option HistoryRow → String → ℤ → Bool
  state_held none s seconds = false
  state_held (some r) s seconds =
      str_eq r.state s && not (ltb_ℤ (seconds_since now r.changed_at) seconds)

  unfoldable pub metric_held_for : Uuid → Option String → CompOp → Json → ℤ → Bool
  metric_held_for id none op expected seconds = false
  metric_held_for id (some name) op expected seconds =
      metric_held h (recent_readings id name keep_n_per_metric db) op expected seconds now

  unfoldable pub state_held_for_op : Uuid → CompOp → Json → ℤ → Bool
  unfolding state_held
  state_held_for_op id eq (Json.string s) seconds =
      state_held (latest_owned_change u id db) s seconds
  state_held_for_op id neq (Json.string s) seconds =
      not (state_held (latest_owned_change u id db) s seconds)
  state_held_for_op id op expected seconds = false

  unfoldable pub held_for : FieldRef → CompOp → Json → ℤ → Bool
  unfolding metric_held_for state_held_for_op
  held_for (monitor id MonitorProp.state) op expected seconds =
      state_held_for_op id op expected seconds
  held_for (monitor id prop) op expected seconds =
      metric_held_for id (metric_name prop) op expected seconds
  held_for (group id prop) op expected seconds = false

  unfoldable pub duration_met : FieldRef → CompOp → Json → Option DurationSpec → Bool
  unfolding held_for
  duration_met r op expected none = true
  duration_met r op expected (some d) = held_for r op expected (as_i64 d.seconds)

  unfoldable pub comparison_holds : Result FieldRef → CompOp → Json → Option DurationSpec → Bool
  unfolding field_value duration_met
  comparison_holds (err e) op expected d = false
  comparison_holds (ok r) op expected d =
      compare h (field_value r) op expected && duration_met r op expected d

  unfoldable mutual
    unfolding comparison_holds

    pub holds : Condition → Bool
    holds (comparison field op expected d) =
        comparison_holds (parse h.parse_uuid field) op expected d
    holds (logical and cs) = all_hold cs
    holds (logical or cs) = any_holds cs

    pub all_hold : Children → Bool
    all_hold no_child = true
    all_hold (child c cs) = holds c && all_hold cs

    pub any_holds : Children → Bool
    any_holds no_child = false
    any_holds (child c cs) = holds c || any_holds cs

  -- The monitors of the cache, where it is filled, are the user's.
  abbrev pub IsFresh : Cache → Type 0
  IsFresh none = Unit
  IsFresh (some ms) = ms ≡ list_for_user u db

  abbrev pub Gives : Bool → Bool × Cache → Type 0
  Gives b (b', cache) = (b' ≡ b) × IsFresh cache

  abbrev pub Fetches : FieldValue → FieldValue × Cache → Type 0
  Fetches v (v', cache) = (v' ≡ v) × IsFresh cache
