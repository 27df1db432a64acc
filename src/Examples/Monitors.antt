-- ===== src/Examples/Monitors.antt =====
-- The synchronisation and the poller: backend/src/monitors.
use myccmonitor.Prelude.{
  ◌≤◌, All, arith, filter, count_by, ◌≡◌, refl, true, false, not, none, some, List, [], ◌∷◌,
  if◌then◌else◌,
}
use myccmonitor.Json.{Json}
use myccmonitor.Error.{unavailable, ok, err}
use myccmonitor.Task.{run}
use myccmonitor.World.{World, tick, is_down}
use myccmonitor.Store.Rows.{Monitor}
use myccmonitor.Monitors.Remote.{Remote}
use myccmonitor.Monitors.Sync.{sync_org}
use myccmonitor.Monitors.Sync.Complete.{sync_org_fails, Synced, sync_org-Synced}
use myccmonitor.Store.Readings.{is_of, insert_reading}
use myccmonitor.Monitors.Poller.{due_monitors, by_org, insert_and_prune, poll_once}
use myccmonitor.Monitors.Poller.Once.{polled, groups_of, IsGrouped, poll_once_ends}
use myccmonitor.Monitors.Poller.Unlocked.{without_polls, poll_once_unlocked}
use myccmonitor.Monitors.Poller.Readings.{insert_and_prune_ends}
use myccmonitor.Examples.Fixture.{host, monitor_of, calm, db_of, failing_at, world_of}
use myccmonitor.Examples.Rules.{fresh_rule, start}

-- One application, which is up; every lock is free.
abbrev remote : Remote
remote = record {
  applications = λ s org n.
      record {
        id = "app_1";
        name = "web";
        description = none;
        app_type = none;
        state = some "UP";
        app_instance = none;
        zone = none;
        last_deploy = none;
      }
      ∷ [];
  addons = λ s org n. [];
  metrics = λ s u org ids n. [];
  lock = λ id n. true;
  decrypt = λ u. some ("token", "secret");
  app_metadata = λ a. Json.null;
  addon_metadata = λ a p. Json.null;
  text_le = λ s t. true;
}

sync_org-Synced_example :
    let after = run (sync_org remote 100 "orga" ("token", "secret")) start in
    (ms : List Monitor) × ((after.0 ≡ ok ms)
      × Synced 100 "orga"
          (remote.applications ("token", "secret") "orga" 0)
          (remote.addons ("token", "secret") "orga" 1)
          start.db.monitors
          after.1.db.monitors)
sync_org-Synced_example =
    sync_org-Synced remote 100 "orga" ("token", "secret") start (record { up = λ n. refl })

abbrev failing : World
failing = world_of (db_of "ok" fresh_rule) (failing_at 1)

sync_org_fails_example :
    let after = run (sync_org remote 100 "orga" ("token", "secret")) failing in
    (after.0 ≡ err unavailable) × (after.1.db ≡ failing.db)
sync_org_fails_example = sync_org_fails remote 100 "orga" ("token", "secret") failing refl

-- A monitor that is due, and its user.
abbrev due_start : World
due_start =
    world_of
      (record (db_of "ok" fresh_rule) {
        monitors =
            record (monitor_of 1 100 "ok") {
              cc_resource_id = some "app_1";
              cc_metrics_id = some "app_1";
            }
            ∷ [];
      })
      calm

poll_once_ends_example :
    let after = run (poll_once host remote (λ gs. gs)) due_start in
    let due = due_monitors 400000000 due_start.db in
    if is_down due_start
    then (after.0 ≡ err unavailable) × (after.1.db ≡ due_start.db)
    else (after ≡ (ok tt, polled host remote (groups_of (λ gs. gs) due) (tick due_start)))
      × All (λ m. IsGrouped m (by_org due [])) due
poll_once_ends_example = poll_once_ends host remote (λ gs. gs) due_start

-- Another instance holds every lock.
abbrev remote_busy : Remote
remote_busy = record remote { lock = λ id n. false }

poll_once_unlocked_example :
    without_polls (run (poll_once host remote_busy (λ gs. gs)) due_start).1.db
    ≡ without_polls due_start.db
poll_once_unlocked_example = poll_once_unlocked host remote_busy (λ gs. gs) due_start (λ id n. refl)

insert_and_prune_ends_example :
    let after = run (insert_and_prune host remote 1 "cpu" 5 42) start in
    let inserted = insert_reading 1 "cpu" 5 42 start.db in
    if is_down start
    then (after.0 ≡ err unavailable) × (after.1.db ≡ start.db)
    else if is_down (tick start)
    then (after.0 ≡ err unavailable) × (after.1.db ≡ inserted)
    else (after.0 ≡ ok tt)
      × (count_by (is_of 1 "cpu") after.1.db.readings ≤ 10)
      × (filter (λ r. not (is_of 1 "cpu" r)) after.1.db.readings
          ≡ filter (λ r. not (is_of 1 "cpu" r)) inserted.readings)
insert_and_prune_ends_example =
    insert_and_prune_ends host remote 1 "cpu" 5 42 start (λ ts. omega arith)
