-- ===== src/Store/Readings.antt =====
-- db/metric_readings.rs: one row for a monitor, a metric and an instant; every insertion prunes
-- the rows of its metric to the newest ten.
pub mod Retained
use myccmonitor.Prelude.{
  ℕ, String, Bool, not, ◌&&◌, ◌||◌, Option, none, some, List, [], ◌∷◌, if◌then◌else◌, ◌==◌, ltb,
  any, filter, take, str_eq,
}
use mathlib.Core.List.{reverse}
use myccmonitor.Json.{Uuid, Instant, Float}
use myccmonitor.Store.Rows.{MetricReading}
use myccmonitor.Store.Tables.{Db}

abbrev pub keep_n_per_metric : ℕ
keep_n_per_metric = 10

abbrev pub is_of : Uuid → String → MetricReading → Bool
is_of monitor_id metric_name r = (r.monitor_id == monitor_id) && str_eq r.metric_name metric_name

-- `ORDER BY ts DESC`
unfoldable pub insert_newest_first : MetricReading → List MetricReading → List MetricReading
insert_newest_first r [] = r ∷ []
insert_newest_first r (s ∷ rs) =
    let rest = insert_newest_first r rs in if ltb r.ts s.ts then s ∷ rest else r ∷ s ∷ rs

unfoldable pub newest_first : List MetricReading → List MetricReading
newest_first [] = []
newest_first (r ∷ rs) = insert_newest_first r (newest_first rs)

-- `WHERE monitor_id = $1 AND metric_name = $2 ORDER BY ts DESC LIMIT $3`
unfoldable pub newest_of : Uuid → String → ℕ → List MetricReading → List MetricReading
unfolding newest_first insert_newest_first
newest_of monitor_id metric_name limit rows =
    take limit (newest_first (filter (is_of monitor_id metric_name) rows))

-- `ON CONFLICT (monitor_id, metric_name, ts) DO UPDATE SET value = EXCLUDED.value`
unfoldable pub upsert_reading : MetricReading → List MetricReading → List MetricReading
upsert_reading r [] = r ∷ []
upsert_reading r (s ∷ rs) =
    let rest = upsert_reading r rs in
    if is_of r.monitor_id r.metric_name s && (s.ts == r.ts)
    then record s { value = r.value } ∷ rs
    else s ∷ rest

abbrev pub has_ts : List MetricReading → Instant → Bool
has_ts rs ts = any (λ r. r.ts == ts) rs

-- The DELETE: rows of the metric whose instant is not among those of the newest ten.
unfoldable pub prune : Uuid → String → List MetricReading → List MetricReading
unfolding newest_of
prune monitor_id metric_name rows =
    let kept = newest_of monitor_id metric_name keep_n_per_metric rows in
    filter (λ r. not (is_of monitor_id metric_name r) || has_ts kept r.ts) rows

-- The first statement of `insert_and_prune`.
unfoldable pub insert_reading : Uuid → String → Instant → Float → Db → Db
unfolding upsert_reading
insert_reading monitor_id metric_name ts value db = record db {
  readings =
      upsert_reading
        (record { monitor_id = monitor_id; metric_name = metric_name; ts = ts; value = value })
        db.readings;
}

-- The second one.
unfoldable pub prune_readings : Uuid → String → Db → Db
unfolding prune
prune_readings monitor_id metric_name db = record db {
  readings = prune monitor_id metric_name db.readings;
}

-- The row of `SELECT DISTINCT ON (metric_name) … ORDER BY metric_name, ts DESC` for one metric.
unfoldable pub latest_reading : Uuid → String → Db → Option MetricReading
latest_reading monitor_id metric_name db = elim (newest_of monitor_id metric_name 1 db.readings) [
  | [] ↦ none
  | r ∷ rs ↦ some r
]

-- Oldest first.
unfoldable pub recent_readings : Uuid → String → ℕ → Db → List MetricReading
recent_readings monitor_id metric_name limit db =
    reverse (newest_of monitor_id metric_name limit db.readings)
