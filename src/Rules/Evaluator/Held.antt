-- ===== src/Rules/Evaluator/Held.antt =====
-- rules/evaluator.rs, `metric_held`: whether a metric met a comparison for a whole duration, judged
-- from the retained samples, oldest first. Instants are microseconds since the epoch; the start of
-- the window may lie before it. `chrono` panics on a duration beyond its range; the model has no
-- such range, and the theorems are on durations up to `max_seconds`.
pub mod Window
use myccmonitor.Prelude.{
  ℕ, ◌*◌, Bool, true, false, not, ◌||◌, ◌&&◌, Option, none, some, List, [], ◌∷◌, ◌++◌,
  if◌then◌else◌, all, filter, find,
}
use myccmonitor.Prelude.Int.{ℤ, pos, ◌-ℤ◌, ◌*ℤ◌, ltb_ℤ}
use myccmonitor.Json.{Instant, Float, Json}
use myccmonitor.Store.Rows.{MetricReading}
use myccmonitor.Rules.Condition.{CompOp}
use myccmonitor.Rules.Field.{number}
use myccmonitor.Host.{Host}
use myccmonitor.Rules.Evaluator.Compare.{compare}

-- A quarter of a million years: within the range of `chrono::Duration`, and back from any instant
-- since the epoch within that of `chrono::DateTime`.
abbrev pub max_seconds : ℕ
max_seconds = 8000000000000

-- `now - chrono::Duration::seconds(seconds)`
unfoldable pub window_start : Instant → ℤ → ℤ
window_start now seconds = pos now -ℤ seconds *ℤ pos 1000000

abbrev pub is_in_window : ℤ → MetricReading → Bool
is_in_window start r = not (ltb_ℤ (pos r.ts) start)

abbrev pub is_before_window : ℤ → MetricReading → Bool
is_before_window start r = ltb_ℤ (pos r.ts) start

-- `iter().rev().find(p)`
unfoldable pub find_last : (MetricReading → Bool) → List MetricReading → Option MetricReading
find_last p [] = none
find_last p (r ∷ rs) = elim (find_last p rs) [
  | none ↦ if p r then some r else none
  | some s ↦ some s
]

abbrev is_nil : List MetricReading → Bool
is_nil [] = true
is_nil (r ∷ rs) = false

abbrev anchor_passes : (MetricReading → Bool) → Option MetricReading → Bool
anchor_passes passes none = false
anchor_passes passes (some anchor) = passes anchor

-- `metric_held` after the closure `passes` and the start of the window are fixed.
unfoldable pub held_from : (MetricReading → Bool) → ℤ → List MetricReading → Bool
unfolding find_last
held_from passes start readings =
    let in_window = filter (is_in_window start) readings in
    if is_nil in_window || not (all passes in_window)
    then false
    else anchor_passes passes (find_last (is_before_window start) readings)

unfoldable pub metric_held : Host → List MetricReading → CompOp → Json → ℤ → Instant → Bool
unfolding window_start held_from
metric_held h readings op expected seconds now =
    held_from (λ r. compare h (number r.value) op expected) (window_start now seconds) readings
