-- ===== src/Store/Readings/Retained.antt =====
-- db/metric_readings.rs, `insert_and_prune`: how many readings of a metric stay.
use myccmonitor.Prelude.{
  ◌≤◌, ◌≡◌, refl, subst, sym, String, Bool, false, not, ◌&&◌, List, [], ◌∷◌, arith, ◌==◌, filter,
  count_by, length-take-le, Bool-cases, inl, inr,
}
use myccmonitor.Json.{Uuid, Instant, Float}
use myccmonitor.Store.Rows.{MetricReading}
use myccmonitor.Store.Tables.{Db}
use myccmonitor.Store.Retention.{prune_bound, others_kept}
use myccmonitor.Store.Readings.{
  is_of, newest_first, newest_of, upsert_reading, prune, insert_reading, prune_readings,
}

module _ (monitor_id : Uuid) (metric : String) where
  -- The primary key: one row for a monitor, a metric and an instant.
  abbrev is_at : Instant → MetricReading → Bool
  is_at ts r = is_of monitor_id metric r && (ts == r.ts)

  abbrev pub HasReadingKeys : List MetricReading → Type 0
  HasReadingKeys rows = (ts : Instant) → count_by (is_at ts) rows ≤ 1

  module _ (t : Instant) (value : Float) where
    abbrev reading : MetricReading
    reading = record { monitor_id = monitor_id; metric_name = metric; ts = t; value = value }

    upsert_at :
        (rows : List MetricReading)
        → count_by (is_at t) rows ≤ 1
        → count_by (is_at t) (upsert_reading reading rows) ≤ 1
    unfolding upsert_reading
    upsert_at [] h = ground arith
    upsert_at (s ∷ rows) h = elim (Bool-cases (is_of monitor_id metric s && (s.ts == t))) [
      | inl y ↦ rw y h
      | inr n ↦ ground (arith, upsert_at rows)
    ]

    upsert_elsewhere :
        (ts : Instant) (rows : List MetricReading)
        → (ts == t) ≡ false
        → count_by (is_at ts) (upsert_reading reading rows) ≡ count_by (is_at ts) rows
    unfolding upsert_reading
    upsert_elsewhere ts [] e = ground arith
    upsert_elsewhere ts (s ∷ rows) e =
        elim (Bool-cases (is_of monitor_id metric s && (s.ts == t))) [
          | inl y ↦ rw y refl
          | inr n ↦ rw n (ground (arith, upsert_elsewhere ts rows e))
        ]

    upsert-HasReadingKeys :
        (rows : List MetricReading)
        → HasReadingKeys rows
        → HasReadingKeys (upsert_reading reading rows)
    upsert-HasReadingKeys rows keys ts = elim (Bool-cases (ts == t)) [
      | inl y ↦
          let e : ts ≡ t = ground arith in
          subst (λ i. count_by (is_at i) (upsert_reading reading rows) ≤ 1) (sym e)
            (upsert_at rows (keys t))
      | inr n ↦ omega (arith, upsert_elsewhere ts rows n, keys ts)
    ]

  prune-bound :
      (rows : List MetricReading)
      → HasReadingKeys rows
      → count_by (is_of monitor_id metric) (prune monitor_id metric rows) ≤ 10
  unfolding prune newest_of
  prune-bound rows keys =
      let kept = newest_of monitor_id metric 10 rows in
      omega (
        arith,
        prune_bound (is_of monitor_id metric) (λ k r. k.ts == r.ts) kept rows (λ k. keys k.ts),
        length-take-le 10 (newest_first (filter (is_of monitor_id metric) rows)),
      )

-- Both statements of an insertion leave at most ten readings of the metric, and the second one the
-- readings of all other metrics and monitors as they were, where no metric had two readings of one
-- instant.
pub insert_and_prune-bound :
    (monitor_id : Uuid) (metric : String) (ts : Instant) (value : Float) (db : Db)
    → HasReadingKeys monitor_id metric db.readings
    → let inserted = insert_reading monitor_id metric ts value db in
      let after = prune_readings monitor_id metric inserted in
      (count_by (is_of monitor_id metric) after.readings ≤ 10)
      × (filter (λ r. not (is_of monitor_id metric r)) after.readings
          ≡ filter (λ r. not (is_of monitor_id metric r)) inserted.readings)
unfolding insert_reading prune_readings prune
insert_and_prune-bound monitor_id metric ts value db keys = (
  prune-bound monitor_id metric (upsert_reading (reading monitor_id metric ts value) db.readings)
      (upsert-HasReadingKeys monitor_id metric ts value db.readings keys),
  others_kept (is_of monitor_id metric) _ _,
)
