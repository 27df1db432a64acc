-- ===== src/Monitors/Poller.antt =====
-- monitors/poller.rs: one cycle of the poller. The order in which a `HashMap` is walked is an
-- argument.
pub mod Once
pub mod Unlocked
pub mod Readings
use myccmonitor.Prelude.{
  ℕ, suc, ◌+◌, ◌*◌, String, Bool, true, false, not, ◌&&◌, ◌||◌, Option, none, some, List, [], ◌∷◌,
  if◌then◌else◌, ◌==◌, ltb, filter, take, str_eq, ◌++◌, find,
}
use myccmonitor.Prelude.Int.{ℤ, pos, negsuc}
use myccmonitor.Json.{Uuid, Instant, Float}
use myccmonitor.Error.{Error, not_found, decode, Result, ok, err}
use myccmonitor.Task.{◌>>=◌, ◌>>◌, pure, throw, attempt}
use myccmonitor.World.{Async, ask, query, select, utc_now}
use myccmonitor.Host.{Host}
use myccmonitor.Store.Rows.{Monitor, MetricReading, User}
use myccmonitor.Store.Tables.{Db, monitor_state, metrics_snapshot}
use myccmonitor.Store.Monitors.{set_state_if_changed, insert_history, bump_last_poll}
use myccmonitor.Store.Readings.{insert_reading, prune_readings, latest_reading}
use myccmonitor.Rules.Trigger.{poll}
use myccmonitor.Rules.Actions.{broadcast_via_pg}
use myccmonitor.Rules.Exec.{trigger_for_monitor}
use myccmonitor.Monitors.Remote.{CcApplication, Session, MetricsTuple, Remote}
use myccmonitor.Monitors.StateMap.{map_cc_app_state}

abbrev pub poll_batch_limit : ℕ
poll_batch_limit = 200

abbrev pub is_some {ℓ} : {A : Type ℓ} → Option A → Bool
is_some none = false
is_some (some a) = true

-- `last_poll_at < now() - (poll_interval_seconds * INTERVAL '1 second')`
abbrev pub is_before : ℤ → Instant → Instant → Bool
is_before (pos n) now last = ltb (last + n * 1000000) now
is_before (negsuc n) now last = ltb last (now + suc n * 1000000)

abbrev pub is_overdue : ℤ → Instant → Option Instant → Bool
is_overdue seconds now none = true
is_overdue seconds now (some last) = is_before seconds now last

unfoldable pub is_due : Instant → Monitor → Bool
is_due now m =
    m.enabled
    && (not (str_eq m.kind "synthetic")
        && (is_some m.cc_org_id
            && (is_some m.cc_resource_id
                && (is_some m.cc_metrics_id
                    && is_overdue m.poll_interval_seconds now m.last_poll_at))))

-- `ORDER BY last_poll_at ASC NULLS FIRST`
abbrev pub is_first : Option Instant → Option Instant → Bool
is_first none b = true
is_first (some a) none = false
is_first (some a) (some b) = not (ltb b a)

unfoldable pub insert_due : Monitor → List Monitor → List Monitor
insert_due m [] = m ∷ []
insert_due m (x ∷ xs) =
    let rest = insert_due m xs in
    if is_first m.last_poll_at x.last_poll_at then m ∷ x ∷ xs else x ∷ rest

unfoldable pub oldest_first : List Monitor → List Monitor
unfolding insert_due
oldest_first [] = []
oldest_first (m ∷ ms) = insert_due m (oldest_first ms)

unfoldable pub due_monitors : Instant → Db → List Monitor
unfolding is_due oldest_first
due_monitors now db = take poll_batch_limit (oldest_first (filter (is_due now) db.monitors))

pub record OrgGroup : Type 0 where
  pub user_id : Uuid
  pub cc_org_id : String
  pub monitors : List Monitor

-- `by_org.entry((m.user_id, org.clone())).or_default().push(m)`
unfoldable pub add_to : Uuid → String → Monitor → List OrgGroup → List OrgGroup
add_to user_id org m [] = record { user_id = user_id; cc_org_id = org; monitors = m ∷ [] } ∷ []
add_to user_id org m (g ∷ gs) =
    let rest = add_to user_id org m gs in
    if (g.user_id == user_id) && str_eq g.cc_org_id org
    then record g { monitors = g.monitors ++ (m ∷ []) } ∷ gs
    else g ∷ rest

abbrev pub add_due : Monitor → Option String → List OrgGroup → List OrgGroup
add_due m none gs = gs
add_due m (some org) gs = add_to m.user_id org m gs

unfoldable pub by_org : List Monitor → List OrgGroup → List OrgGroup
unfolding add_to
by_org [] gs = gs
by_org (m ∷ ms) gs = by_org ms (add_due m m.cc_org_id gs)

-- `pool.begin()`, `tx.commit()` and `tx.rollback()`: calls that change nothing by themselves.
unfoldable pub transact : Async (Unit {0})
transact = query (λ now fresh db. (tt, db))

-- The value of the map for the id: a later application with the id replaces an earlier one.
unfoldable pub state_by_id : String → List CcApplication → Option (Option String)
state_by_id id [] = none
state_by_id id (a ∷ rest) = elim (state_by_id id rest) [
  | some s ↦ some s
  | none ↦ if str_eq a.id id then some a.state else none
]

-- `map.get(mid).copied().unwrap_or((None, …))`
abbrev pub no_metrics : MetricsTuple
no_metrics = record { cpu = none; mem = none; disk = none; net_in = none; net_out = none }

unfoldable pub metrics_by_id : String → List (String × MetricsTuple) → MetricsTuple
metrics_by_id id [] = no_metrics
metrics_by_id id ((k, t) ∷ rest) = let u = metrics_by_id id rest in if str_eq k id then t else u

module _ (h : Host) (remote : Remote) where
  -- The rollback of a transaction whose lock was not taken, and the section under the lock.
  unfoldable pub locked : Async (Unit {0}) → Result Bool → Async (Unit {0})
  unfolding transact
  locked body (err e) = attempt transact >> pure tt
  locked body (ok false) = attempt transact >> pure tt
  locked body (ok true) = body

  unfoldable pub begun : Uuid → Async (Unit {0}) → Result (Unit {0}) → Async (Unit {0})
  unfolding locked
  begun id body (err e) = pure tt
  begun id body (ok _) = do acquired ← attempt (ask (remote.lock id)); locked body acquired

  unfoldable pub with_lock : Uuid → Async (Unit {0}) → Async (Unit {0})
  unfolding begun transact
  with_lock id body = do tx ← attempt transact; begun id body tx

  unfoldable pub fire : Uuid → Uuid → Bool → Async (Unit {0})
  fire user_id id false = pure tt
  fire user_id id true = attempt (trigger_for_monitor h user_id id (poll id)) >> pure tt

  -- `match set_state_if_changed(…)`: whether there was a transition.
  unfoldable pub report_transition :
      Uuid → String → Instant → Result (Option (String × Instant)) → Async Bool
  report_transition id org now (err e) = pure false
  report_transition id org now (ok none) = pure false
  report_transition id org now (ok (some (new_state, since))) = do
    attempt (query (λ _ fresh db. (tt, insert_history id new_state none now "poll" db)))
    attempt (broadcast_via_pg org (monitor_state id new_state none (some since)))
    pure true

  -- Under the lock, and after its release.
  unfoldable pub set_polled_state : Uuid → String → Uuid → String → Instant → Async (Unit {0})
  unfolding report_transition transact fire
  set_polled_state user_id org id mapped now = do
    changed ← attempt (query (λ now' fresh db. set_state_if_changed id mapped none now' db))
    transitioned ← report_transition id org now changed
    attempt transact
    fire user_id id transitioned

  unfoldable pub refresh_known :
      Uuid → String → Instant → Monitor → Option (Option String) → Async (Unit {0})
  unfolding with_lock set_polled_state map_cc_app_state
  refresh_known user_id org now m none = pure tt
  refresh_known user_id org now m (some cc_state) =
      if str_eq m.current_state (map_cc_app_state cc_state)
      then pure tt
      else with_lock m.id (set_polled_state user_id org m.id (map_cc_app_state cc_state) now)

  unfoldable pub refresh_monitor :
      Uuid → String → Instant → List CcApplication → Monitor → Option String → Async (Unit {0})
  unfolding refresh_known state_by_id
  refresh_monitor user_id org now cc_apps m none = pure tt
  refresh_monitor user_id org now cc_apps m (some rid) =
      refresh_known user_id org now m (state_by_id rid cc_apps)

  unfoldable pub refresh_each :
      Uuid → String → Instant → List CcApplication → List Monitor → Async (Unit {0})
  unfolding refresh_monitor
  refresh_each user_id org now cc_apps [] = pure tt
  refresh_each user_id org now cc_apps (m ∷ ms) = do
    refresh_monitor user_id org now cc_apps m m.cc_resource_id
    refresh_each user_id org now cc_apps ms

  unfoldable pub refresh_listed :
      Uuid → String → List Monitor → Result (List CcApplication) → Async (Unit {0})
  unfolding refresh_each
  refresh_listed user_id org apps (err e) = pure tt
  refresh_listed user_id org apps (ok cc_apps) = do
    now ← utc_now
    refresh_each user_id org now cc_apps apps

  unfoldable pub refresh_app_state : Uuid → Session → String → List Monitor → Async (Unit {0})
  unfolding refresh_listed
  refresh_app_state user_id session org apps = do
    listed ← attempt (ask (remote.applications session org))
    refresh_listed user_id org apps listed

  -- `insert_and_prune`
  unfoldable pub insert_and_prune : Uuid → String → Instant → Float → Async (Unit {0})
  insert_and_prune id name ts value = do
    query (λ now fresh db. (tt, insert_reading id name ts value db))
    query (λ now fresh db. (tt, prune_readings id name db))

  unfoldable pub write_reading : Uuid → Instant → String → Option Float → Async (Unit {0})
  unfolding insert_and_prune
  write_reading id ts name none = pure tt
  write_reading id ts name (some v) = attempt (insert_and_prune id name ts v) >> pure tt

  unfoldable pub bump : Uuid → Async (Unit {0})
  bump id = query (λ now fresh db. (tt, bump_last_poll id now db))

  abbrev pub value_of : Option MetricReading → Option Float
  value_of none = none
  value_of (some r) = some r.value

  -- `latest_per_metric`, at the five metrics.
  unfoldable pub latest_metrics : Uuid → Db → MetricsTuple
  latest_metrics id db = record {
    cpu = value_of (latest_reading id "cpu" db);
    mem = value_of (latest_reading id "mem" db);
    disk = value_of (latest_reading id "disk" db);
    net_in = value_of (latest_reading id "net_in" db);
    net_out = value_of (latest_reading id "net_out" db);
  }

  abbrev pub has_any : MetricsTuple → Bool
  has_any t =
      is_some t.cpu
      || (is_some t.mem || (is_some t.disk || (is_some t.net_in || is_some t.net_out)))

  abbrev pub or_no_metrics : Result MetricsTuple → MetricsTuple
  or_no_metrics (ok t) = t
  or_no_metrics (err e) = no_metrics

  unfoldable pub send_snapshot : Uuid → String → Instant → MetricsTuple → Async (Unit {0})
  send_snapshot id org ts t =
      if has_any t
      then attempt
          (broadcast_via_pg org (metrics_snapshot id ts t.cpu t.mem t.disk t.net_in t.net_out))
        >> pure tt
      else pure tt

  unfoldable pub write_readings : Uuid → Instant → MetricsTuple → Async (Unit {0})
  unfolding write_reading
  write_readings id ts t = do
    write_reading id ts "cpu" t.cpu
    write_reading id ts "mem" t.mem
    write_reading id ts "disk" t.disk
    write_reading id ts "net_in" t.net_in
    write_reading id ts "net_out" t.net_out

  unfoldable pub write_locked : Uuid → Monitor → MetricsTuple → String → Instant → Async (Unit {0})
  unfolding write_readings bump latest_metrics send_snapshot transact fire
  write_locked user_id m t org ts = do
    write_readings m.id ts t
    attempt (bump m.id)
    latest ← attempt (select (latest_metrics m.id))
    send_snapshot m.id org ts (or_no_metrics latest)
    attempt transact
    fire user_id m.id (has_any t)

  unfoldable pub write_sample : Uuid → Monitor → MetricsTuple → String → Instant → Async (Unit {0})
  unfolding with_lock write_locked
  write_sample user_id m t org ts = with_lock m.id (write_locked user_id m t org ts)

  abbrev pub push_some : Option String → List String → List String
  push_some none ids = ids
  push_some (some id) ids = id ∷ ids

  abbrev pub metrics_ids : List Monitor → List String
  metrics_ids [] = []
  metrics_ids (m ∷ ms) = push_some m.cc_metrics_id (metrics_ids ms)

  unfoldable pub bump_each : List Monitor → Async (Unit {0})
  unfolding bump
  bump_each [] = pure tt
  bump_each (m ∷ ms) = do attempt (bump m.id); bump_each ms

  unfoldable pub write_one :
      Uuid
      → String
      → Instant
      → List (String × MetricsTuple)
      → Monitor
      → Option String
      → Async (Unit {0})
  unfolding write_sample metrics_by_id
  write_one user_id org now values m none = pure tt
  write_one user_id org now values m (some id) =
      write_sample user_id m (metrics_by_id id values) org now

  unfoldable pub write_each :
      Uuid → String → Instant → List (String × MetricsTuple) → List Monitor → Async (Unit {0})
  unfolding write_one
  write_each user_id org now values [] = pure tt
  write_each user_id org now values (m ∷ ms) = do
    write_one user_id org now values m m.cc_metrics_id
    write_each user_id org now values ms

  unfoldable pub write_fetched :
      Uuid → String → List Monitor → Result (List (String × MetricsTuple)) → Async (Unit {0})
  unfolding bump_each write_each
  write_fetched user_id org monitors (err e) = bump_each monitors
  write_fetched user_id org monitors (ok values) = do
    now ← utc_now
    write_each user_id org now values monitors

  unfoldable pub run_metrics_batch : Uuid → Session → String → List Monitor → Async (Unit {0})
  unfolding write_fetched
  run_metrics_batch user_id session org monitors = do
    fetched ← attempt (ask (remote.metrics session user_id org (metrics_ids monitors)))
    write_fetched user_id org monitors fetched

  abbrev pub is_app : Monitor → Bool
  is_app m = str_eq m.kind "cc_application"

  -- `if !apps.is_empty()` and `if !monitors.is_empty()`
  unfoldable pub refresh_apps : Uuid → Session → String → List Monitor → Async (Unit {0})
  unfolding refresh_app_state
  refresh_apps user_id session org [] = pure tt
  refresh_apps user_id session org (m ∷ ms) = refresh_app_state user_id session org (m ∷ ms)

  unfoldable pub batch_metrics : Uuid → Session → String → List Monitor → Async (Unit {0})
  unfolding run_metrics_batch
  batch_metrics user_id session org [] = pure tt
  batch_metrics user_id session org (m ∷ ms) = run_metrics_batch user_id session org (m ∷ ms)

  unfoldable pub poll_as : OrgGroup → Session → Async (Unit {0})
  unfolding refresh_apps batch_metrics
  poll_as g session = do
    refresh_apps g.user_id session g.cc_org_id (filter is_app g.monitors)
    batch_metrics g.user_id session g.cc_org_id g.monitors

  unfoldable pub open_session : Option Session → Async Session
  open_session none = throw decode
  open_session (some s) = pure s

  unfoldable pub found_user : Uuid → Option User → Async User
  found_user id none = throw (not_found id)
  found_user id (some u) = pure u

  unfoldable pub poll_user_org : OrgGroup → Async (Unit {0})
  unfolding poll_as open_session found_user
  poll_user_org g = do
    row ← select (λ db. find (λ u. u.id == g.user_id) db.users)
    user ← found_user g.user_id row
    session ← open_session (remote.decrypt user)
    poll_as g session

  unfoldable pub poll_each : List OrgGroup → Async (Unit {0})
  unfolding poll_user_org
  poll_each [] = pure tt
  poll_each (g ∷ gs) = do attempt (poll_user_org g); poll_each gs

  -- `if due.is_empty() { return Ok(()); }`
  unfoldable pub poll_due : (List OrgGroup → List OrgGroup) → List Monitor → Async (Unit {0})
  unfolding poll_each by_org
  poll_due order [] = pure tt
  poll_due order (m ∷ ms) = poll_each (order (by_org (m ∷ ms) []))

  unfoldable pub poll_once : (List OrgGroup → List OrgGroup) → Async (Unit {0})
  unfolding poll_due due_monitors
  poll_once order = do due ← query (λ now fresh db. (due_monitors now db, db)); poll_due order due
