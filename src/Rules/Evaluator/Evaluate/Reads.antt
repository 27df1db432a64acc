-- ===== src/Rules/Evaluator/Evaluate/Reads.antt =====
-- rules/field.rs and rules/evaluator.rs: an evaluation only reads.
use myccmonitor.Prelude.{str_eq, String, not, Option, none, some}
use myccmonitor.Prelude.Int.{ℤ}
use myccmonitor.Json.{Uuid, Json}
use myccmonitor.Error.{Result, ok, err}
use myccmonitor.Task.{Task}
use myccmonitor.Task.Invariant.{Keeps, Keeps-bind, Keeps-pure, Keeps-if}
use myccmonitor.World.{World}
use myccmonitor.World.Laws.{OnDb, Keeps-select, keeps_rules}
use myccmonitor.Host.{Host}
use myccmonitor.Store.Rows.{HistoryRow, MonitorGroup}
use myccmonitor.Store.Tables.{Db}
use myccmonitor.Rules.Condition.{
  CompOp, eq, neq, DurationSpec, Condition, comparison, logical, and, or, Children, no_child, child,
}
use myccmonitor.Rules.Field.{MonitorProp, GroupProp, FieldRef, monitor, group}
use myccmonitor.Rules.Fetch.{
  Cache, user_monitors, latest_value, fetch_monitor, compute_view, fetch_found_group, fetch_group,
  fetch, held_since, state_held_for,
}
use myccmonitor.Rules.Evaluator.Evaluate.{
  state_check, metric_check, time_check, check_duration, evaluate_field, evaluate, evaluate_all,
  evaluate_any,
}
use myccmonitor.Rules.Evaluator.Compare.{compare}

module _ (P : Db → Type 0) (h : Host) (u : Uuid) where
  abbrev Reads : {A : Type 0} → Task World A → Type 0
  Reads t = Keeps (OnDb P) t

  pub user_monitors-Reads : (cache : Cache) → Reads (user_monitors u cache)
  unfolding user_monitors
  user_monitors-Reads none = Keeps-select _
  user_monitors-Reads (some ms) = Keeps-pure ms

  latest_value-Reads : (id : Uuid) (key : Option String) → Reads (latest_value id key)
  unfolding latest_value
  latest_value-Reads id none = Keeps-pure _
  latest_value-Reads id (some key) = search keeps_rules

  pub fetch_monitor-Reads : (id : Uuid) (prop : MonitorProp) → Reads (fetch_monitor u id prop)
  unfolding fetch_monitor
  fetch_monitor-Reads id MonitorProp.state = search keeps_rules
  fetch_monitor-Reads id MonitorProp.message = search keeps_rules
  fetch_monitor-Reads id MonitorProp.acknowledged = search keeps_rules
  fetch_monitor-Reads id MonitorProp.cpu = latest_value-Reads id _
  fetch_monitor-Reads id MonitorProp.mem = latest_value-Reads id _
  fetch_monitor-Reads id MonitorProp.disk = latest_value-Reads id _
  fetch_monitor-Reads id MonitorProp.net_in = latest_value-Reads id _
  fetch_monitor-Reads id MonitorProp.net_out = latest_value-Reads id _

  found_group-Reads :
      (cache : Cache) (prop : GroupProp) (o : Option MonitorGroup)
      → Reads (fetch_found_group h u cache prop o)
  unfolding fetch_found_group compute_view
  found_group-Reads cache prop none = Keeps-pure _
  found_group-Reads cache prop (some g) =
      Keeps-bind _ (user_monitors-Reads cache) (λ ms. search keeps_rules)

  fetch-Reads : (cache : Cache) (r : FieldRef) → Reads (fetch h u cache r)
  unfolding fetch fetch_group
  fetch-Reads cache (monitor id prop) =
      Keeps-bind _ (fetch_monitor-Reads id prop) (λ v. Keeps-pure _)
  fetch-Reads cache (group id prop) =
      Keeps-bind _ (Keeps-select _) (λ o. found_group-Reads cache prop o)

  held_since-Reads :
      (o : Option HistoryRow) (s : String) (seconds : ℤ) → Reads (held_since o s seconds)
  unfolding held_since
  held_since-Reads none s seconds = Keeps-pure _
  held_since-Reads (some r) s seconds =
      Keeps-if (str_eq r.state s) (λ _. search keeps_rules) (λ _. Keeps-pure _)

  state_held-Reads : (id : Uuid) (s : String) (seconds : ℤ) → Reads (state_held_for u id s seconds)
  unfolding state_held_for
  state_held-Reads id s seconds = Keeps-bind _ (Keeps-select _) (λ o. held_since-Reads o s seconds)

  state_check-Reads :
      (id : Uuid) (op : CompOp) (expected : Json) (seconds : ℤ)
      → Reads (state_check h u id op expected seconds)
  unfolding state_check
  state_check-Reads id eq (Json.string s) seconds = state_held-Reads id s seconds
  state_check-Reads id neq (Json.string s) seconds =
      Keeps-bind _ (state_held-Reads id s seconds) (λ b. Keeps-pure _)
  state_check-Reads id op expected seconds = Keeps-pure _

  metric_check-Reads :
      (id : Uuid) (name : Option String) (op : CompOp) (expected : Json) (seconds : ℤ)
      → Reads (metric_check h u id name op expected seconds)
  unfolding metric_check
  metric_check-Reads id none op expected seconds = Keeps-pure _
  metric_check-Reads id (some name) op expected seconds = search keeps_rules

  time_check-Reads :
      (r : FieldRef) (op : CompOp) (expected : Json) (seconds : ℤ)
      → Reads (time_check h u r op expected seconds)
  unfolding time_check
  time_check-Reads (monitor id MonitorProp.state) op expected seconds =
      state_check-Reads id op expected seconds
  time_check-Reads (monitor id prop) op expected seconds =
      metric_check-Reads id _ op expected seconds
  time_check-Reads (group id prop) op expected seconds = Keeps-pure _

  check_duration-Reads :
      (r : FieldRef) (op : CompOp) (expected : Json) (d : Option DurationSpec)
      → Reads (check_duration h u r op expected d)
  unfolding check_duration
  check_duration-Reads r op expected none = Keeps-pure _
  check_duration-Reads r op expected (some d) = time_check-Reads r op expected _

  evaluate_field-Reads :
      (cache : Cache) (r : Result FieldRef) (op : CompOp) (expected : Json)
      (d : Option DurationSpec)
      → Reads (evaluate_field h u cache r op expected d)
  unfolding evaluate_field
  evaluate_field-Reads cache (err e) op expected d = Keeps-pure _
  evaluate_field-Reads cache (ok r) op expected d = Keeps-bind _ (fetch-Reads cache r) (λ a.
      Keeps-if (not (compare h a.0 op expected)) (λ _. Keeps-pure _)
        (λ _. Keeps-bind _ (check_duration-Reads r op expected d) (λ b. Keeps-pure _)))

  -- An evaluation only reads: each of its steps keeps every property of the database.
  mutual
    unfolding evaluate evaluate_all evaluate_any

    pub evaluate-Reads : (cache : Cache) (c : Condition) → Reads (evaluate h u cache c)
    evaluate-Reads cache (comparison field op expected d) =
        evaluate_field-Reads cache _ op expected d
    evaluate-Reads cache (logical and cs) = evaluate_all-Reads cache cs
    evaluate-Reads cache (logical or cs) = evaluate_any-Reads cache cs

    evaluate_all-Reads : (cache : Cache) (cs : Children) → Reads (evaluate_all h u cache cs)
    evaluate_all-Reads cache no_child = Keeps-pure _
    evaluate_all-Reads cache (child c cs) =
        Keeps-bind _ (evaluate-Reads cache c)
          (λ a. Keeps-if (not a.0) (λ _. Keeps-pure _) (λ _. evaluate_all-Reads a.1 cs))

    evaluate_any-Reads : (cache : Cache) (cs : Children) → Reads (evaluate_any h u cache cs)
    evaluate_any-Reads cache no_child = Keeps-pure _
    evaluate_any-Reads cache (child c cs) =
        Keeps-bind _ (evaluate-Reads cache c)
          (λ a. Keeps-if a.0 (λ _. Keeps-pure _) (λ _. evaluate_any-Reads a.1 cs))
