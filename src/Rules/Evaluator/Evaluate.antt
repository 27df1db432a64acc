-- ===== src/Rules/Evaluator/Evaluate.antt =====
-- rules/evaluator.rs, `evaluate` and `time_check`. A failed call ends the evaluation with its
-- error; a field that does not parse makes its comparison false.
pub mod Reads
use myccmonitor.Prelude.{
  ℕ, ◌-◌, ◌%◌, ◌^◌, String, Bool, true, false, not, Option, none, some, List, [], ◌∷◌,
  if◌then◌else◌, ltb,
}
use myccmonitor.Prelude.Int.{ℤ, pos, sub_ℕ}
use myccmonitor.Json.{Uuid, Json}
use myccmonitor.Error.{Error, Result, ok, err}
use myccmonitor.Task.{◌>>=◌, ◌>>◌, pure}
use myccmonitor.World.{Async, select, utc_now}
use myccmonitor.Host.{Host}
use myccmonitor.Store.Readings.{keep_n_per_metric, recent_readings}
use myccmonitor.Rules.Condition.{
  CompOp, eq, neq, LogicalOp, and, or, DurationSpec, Condition, comparison, logical, Children,
  no_child, child,
}
use myccmonitor.Rules.Field.{
  MonitorProp, state, FieldRef, monitor, group, FieldValue, metric_name, parse,
}
use myccmonitor.Rules.Fetch.{Cache, fetch, state_held_for}
use myccmonitor.Rules.Evaluator.Compare.{compare}
use myccmonitor.Rules.Evaluator.Held.{metric_held}

-- `dur.seconds as i64`
unfoldable pub as_i64 : ℕ → ℤ
as_i64 n = if ltb (n % 2 ^ 64) (2 ^ 63) then pos (n % 2 ^ 64) else sub_ℕ (n % 2 ^ 64) (2 ^ 64)

module _ (h : Host) (user_id : Uuid) where
  unfoldable pub state_check : Uuid → CompOp → Json → ℤ → Async Bool
  state_check id eq (Json.string s) seconds = state_held_for user_id id s seconds
  state_check id neq (Json.string s) seconds = do
    held ← state_held_for user_id id s seconds
    pure (not held)
  state_check id _ _ seconds = pure false

  unfoldable pub metric_check : Uuid → Option String → CompOp → Json → ℤ → Async Bool
  metric_check id none op expected seconds = pure false
  metric_check id (some name) op expected seconds = do
    readings ← select (recent_readings id name keep_n_per_metric)
    now ← utc_now
    pure (metric_held h readings op expected seconds now)

  unfoldable pub time_check : FieldRef → CompOp → Json → ℤ → Async Bool
  unfolding state_check metric_check
  time_check (monitor id MonitorProp.state) op expected seconds = state_check id op expected seconds
  time_check (monitor id prop) op expected seconds =
      metric_check id (metric_name prop) op expected seconds
  time_check (group id prop) op expected seconds = pure false

  unfoldable pub check_duration : FieldRef → CompOp → Json → Option DurationSpec → Async Bool
  unfolding time_check
  check_duration r op expected none = pure true
  check_duration r op expected (some dur) = time_check r op expected (as_i64 dur.seconds)

  unfoldable pub evaluate_field :
      Cache → Result FieldRef → CompOp → Json → Option DurationSpec → Async (Bool × Cache)
  unfolding check_duration
  evaluate_field cache (err e) op expected for_duration = pure (false, cache)
  evaluate_field cache (ok r) op expected for_duration = do
    (live, cache') ← fetch h user_id cache r
    if not (compare h live op expected)
        then pure (false, cache')
        else (do held ← check_duration r op expected for_duration; pure (held, cache'))

  unfoldable mutual
    pub evaluate : Cache → Condition → Async (Bool × Cache)
    evaluate cache (comparison field op expected for_duration) =
        evaluate_field cache (parse h.parse_uuid field) op expected for_duration
    evaluate cache (logical and children) = evaluate_all cache children
    evaluate cache (logical or children) = evaluate_any cache children

    pub evaluate_all : Cache → Children → Async (Bool × Cache)
    evaluate_all cache no_child = pure (true, cache)
    evaluate_all cache (child c cs) = do
      (b, cache') ← evaluate cache c
      if not b then pure (false, cache') else evaluate_all cache' cs

    pub evaluate_any : Cache → Children → Async (Bool × Cache)
    evaluate_any cache no_child = pure (false, cache)
    evaluate_any cache (child c cs) = do
      (b, cache') ← evaluate cache c
      if b then pure (true, cache') else evaluate_any cache' cs
