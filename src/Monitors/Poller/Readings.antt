-- ===== src/Monitors/Poller/Readings.antt =====
-- monitors/poller.rs and db/metric_readings.rs: what `insert_and_prune` leaves.
use myccmonitor.Prelude.{
  ◌≤◌, ◌≡◌, refl, String, not, filter, count_by, if◌then◌else◌, Bool-cases, inl, inr,
}
use myccmonitor.Json.{Uuid, Instant, Float}
use myccmonitor.Error.{unavailable, ok, err}
use myccmonitor.Task.{run}
use myccmonitor.Task.Run.{run_laws}
use myccmonitor.World.{World, query, is_down, tick}
use myccmonitor.Host.{Host}
use myccmonitor.Store.Readings.{is_of, insert_reading}
use myccmonitor.Store.Readings.Retained.{HasReadingKeys, insert_and_prune-bound}
use myccmonitor.Monitors.Remote.{Remote}
use myccmonitor.Monitors.Poller.{insert_and_prune}

-- Inserting a reading, which is two statements. Where the first fails, an error and nothing
-- changes. Where only the second fails, an error, and the reading is in without a pruning. Where
-- both answer, at most ten readings of the metric stay, and those of all other metrics and monitors
-- are as after the insertion, where no metric had two readings of one instant.
pub insert_and_prune_ends :
    (h : Host) (remote : Remote) (id : Uuid) (metric : String) (ts : Instant) (value : Float)
    (w : World)
    → HasReadingKeys id metric w.db.readings
    → let after = run (insert_and_prune h remote id metric ts value) w in
      let inserted = insert_reading id metric ts value w.db in
      if is_down w
      then (after.0 ≡ err unavailable) × (after.1.db ≡ w.db)
      else if is_down (tick w)
      then (after.0 ≡ err unavailable) × (after.1.db ≡ inserted)
      else (after.0 ≡ ok tt)
        × (count_by (is_of id metric) after.1.db.readings ≤ 10)
        × (filter (λ r. not (is_of id metric r)) after.1.db.readings
            ≡ filter (λ r. not (is_of id metric r)) inserted.readings)
unfolding insert_and_prune query
insert_and_prune_ends h remote id metric ts value w keys = elim (Bool-cases (is_down w)) [
  | inl d ↦ simp (run_laws, d) (refl, refl)
  | inr u ↦ elim (Bool-cases (is_down (tick w))) [
    | inl d ↦ simp (run_laws, u, d) (refl, refl)
    | inr u' ↦
        let bound = insert_and_prune-bound id metric ts value w.db keys in
        simp (run_laws, u, u') (refl, bound.0, bound.1)
  ]
]
