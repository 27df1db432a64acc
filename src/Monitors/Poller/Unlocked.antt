-- ===== src/Monitors/Poller/Unlocked.antt =====
-- monitors/poller.rs: what a cycle leaves where it does not get the locks or the metrics.
use myccmonitor.Prelude.{
  ℕ, ◌≡◌, refl, ap, ◌∙◌, String, Bool, true, false, Option, none, some, List, [], ◌∷◌, ◌==◌, str_eq,
  update_where, map, Bool-cases, inl, inr,
}
use myccmonitor.Json.{Uuid, Instant}
use myccmonitor.Error.{Result, ok, err}
use myccmonitor.Task.{run, ◌>>=◌, atomic, attempt}
use myccmonitor.Task.Run.{run_laws}
use myccmonitor.Task.Invariant.{
  Keeps, keeps_step, Keeps-bind, Keeps-then, Keeps-pure, Keeps-throw, Keeps-attempt, Keeps-if,
  Keeps-run,
}
use myccmonitor.World.{World, Async, ask, run_ask, is_down, tick}
use myccmonitor.World.Laws.{
  OnDb, run_ask_keeps, Keeps-query, Keeps-select, Keeps-ask, Keeps-utc_now,
}
use myccmonitor.Host.{Host}
use myccmonitor.Store.Rows.{Monitor, User}
use myccmonitor.Store.Tables.{Db}
use myccmonitor.Store.Monitors.{bump_last_poll}
use myccmonitor.Monitors.Remote.{CcApplication, Session, MetricsTuple, Remote}
use myccmonitor.Monitors.StateMap.{map_cc_app_state}
use myccmonitor.Monitors.Poller.{
  OrgGroup, transact, locked, begun, with_lock, bump, bump_each, write_fetched, run_metrics_batch,
  refresh_known, refresh_monitor, refresh_each, refresh_listed, refresh_app_state, refresh_apps,
  write_sample, write_one, write_each, batch_metrics, poll_as, open_session, found_user,
  poll_user_org, poll_each, poll_due, poll_once, state_by_id,
}

-- All of the database but the times of the last polls.
abbrev pub without_polls : Db → Db
without_polls db = record db {
  monitors = map {A = Monitor} (λ m. record m { last_poll_at = none }) db.monitors;
}

bumped :
    (id : Uuid) (now : Instant) (rows : List Monitor)
    → map {A = Monitor}
        (λ m. record m { last_poll_at = none })
        (update_where (λ m. m.id == id) (λ m. record m { last_poll_at = some now }) rows)
      ≡ map {A = Monitor} (λ m. record m { last_poll_at = none }) rows
bumped id now [] = refl
bumped id now (m ∷ rows) = elim (Bool-cases (m.id == id)) [
  | inl y ↦ rw (y, bumped id now rows) refl
  | inr n ↦ rw (n, bumped id now rows) refl
]

module _ (before : Db) where
  abbrev Same : Db → Type 0
  Same db = without_polls db ≡ without_polls before

  bump_each-Keeps :
      (h : Host) (remote : Remote) (ms : List Monitor) → Keeps (OnDb Same) (bump_each h remote ms)
  unfolding bump_each bump bump_last_poll
  bump_each-Keeps h remote [] = Keeps-pure tt
  bump_each-Keeps h remote (m ∷ ms) =
      Keeps-then
        (Keeps-attempt (
          Keeps-query _ (λ now fresh db p.
            ap (λ rows. record db { monitors = rows }) (bumped m.id now db.monitors) ∙ p)))
        (bump_each-Keeps h remote ms)

bump_each_ok :
    (h : Host) (remote : Remote) (ms : List Monitor) (w : World)
    → (run (bump_each h remote ms) w).0 ≡ ok tt
unfolding bump_each
bump_each_ok h remote [] w = simp (run_laws) refl
bump_each_ok h remote (m ∷ ms) w = simp (run_laws) (bump_each_ok h remote ms _)

-- Where the metrics cannot be fetched, a batch ends well and changes nothing but the times of the
-- last polls: no reading, no state, no rule.
pub run_metrics_batch_fails :
    (h : Host) (remote : Remote) (user_id : Uuid) (session : Session) (org : String)
    (monitors : List Monitor) (w : World)
    → is_down w ≡ true
    → let after = run (run_metrics_batch h remote user_id session org monitors) w in
      (after.0 ≡ ok tt) × (without_polls after.1.db ≡ without_polls w.db)
unfolding run_metrics_batch write_fetched ask
run_metrics_batch_fails h remote user_id session org monitors w d =
    simp (run_laws, d)
      (
        bump_each_ok h remote monitors _,
        (Keeps-run (bump_each-Keeps w.db h remote monitors) (tick w)
            (record { on_db = refl })).on_db,
      )

-- No lock can be had: whoever asks for one, at whatever step.
abbrev pub IsTaken : Remote → Type 0
IsTaken remote = (id : Uuid) (n : ℕ) → remote.lock id n ≡ false

abbrev IsRefused : Result Bool → Type 0
IsRefused (err e) = Unit
IsRefused (ok b) = b ≡ false

module _ (h : Host) (remote : Remote) (taken : IsTaken remote) (before : Db) where
  abbrev IsKept : {A : Type 0} → Async A → Type 0
  IsKept t = Keeps (OnDb (Same before)) t

  transact_keeps : IsKept transact
  unfolding transact
  transact_keeps = Keeps-query _ (λ now fresh db p. p)

  locked_keeps :
      (body : Async (Unit {0})) (r : Result Bool) → IsRefused r → IsKept (locked h remote body r)
  unfolding locked
  locked_keeps body (err e) f = Keeps-then (Keeps-attempt transact_keeps) (Keeps-pure tt)
  locked_keeps body (ok false) f = Keeps-then (Keeps-attempt transact_keeps) (Keeps-pure tt)
  locked_keeps body (ok true) f = cc

  refused : (id : Uuid) (w : World) → IsRefused (run_ask (remote.lock id) w).0
  refused id w = elim (Bool-cases (is_down w)) [ inl d ↦ rw d tt | inr u ↦ rw u (taken id w.ticks) ]

  begun_keeps :
      (id : Uuid) (body : Async (Unit {0})) (r : Result (Unit {0}))
      → IsKept (begun h remote id body r)
  unfolding begun ask atomic attempt ◌>>=◌
  begun_keeps id body (err e) = Keeps-pure tt
  begun_keeps id body (ok _) =
      keeps_step (run_ask_keeps (remote.lock id))
        (λ w p. locked_keeps body (run_ask (remote.lock id) w).0 (refused id w))

  with_lock_keeps : (id : Uuid) (body : Async (Unit {0})) → IsKept (with_lock h remote id body)
  unfolding with_lock
  with_lock_keeps id body = Keeps-bind _ (Keeps-attempt transact_keeps) (λ r. begun_keeps id body r)

  module _ (u : Uuid) (org : String) where
    refresh_known_keeps :
        (now : Instant) (m : Monitor) (o : Option (Option String))
        → IsKept (refresh_known h remote u org now m o)
    unfolding refresh_known
    refresh_known_keeps now m none = Keeps-pure tt
    refresh_known_keeps now m (some s) =
        Keeps-if (str_eq m.current_state (map_cc_app_state s)) (λ _. Keeps-pure tt)
          (λ _. with_lock_keeps m.id _)

    refresh_monitor_keeps :
        (now : Instant) (apps : List CcApplication) (m : Monitor) (o : Option String)
        → IsKept (refresh_monitor h remote u org now apps m o)
    unfolding refresh_monitor
    refresh_monitor_keeps now apps m none = Keeps-pure tt
    refresh_monitor_keeps now apps m (some id) = refresh_known_keeps now m (state_by_id id apps)

    refresh_each_keeps :
        (now : Instant) (apps : List CcApplication) (ms : List Monitor)
        → IsKept (refresh_each h remote u org now apps ms)
    unfolding refresh_each
    refresh_each_keeps now apps [] = Keeps-pure tt
    refresh_each_keeps now apps (m ∷ ms) =
        Keeps-then (refresh_monitor_keeps now apps m m.cc_resource_id)
          (refresh_each_keeps now apps ms)

    refresh_listed_keeps :
        (ms : List Monitor) (r : Result (List CcApplication))
        → IsKept (refresh_listed h remote u org ms r)
    unfolding refresh_listed
    refresh_listed_keeps ms (err e) = Keeps-pure tt
    refresh_listed_keeps ms (ok apps) =
        Keeps-bind _ Keeps-utc_now (λ now. refresh_each_keeps now apps ms)

    refresh_apps_keeps :
        (session : Session) (ms : List Monitor) → IsKept (refresh_apps h remote u session org ms)
    unfolding refresh_apps refresh_app_state
    refresh_apps_keeps session [] = Keeps-pure tt
    refresh_apps_keeps session (m ∷ ms) =
        Keeps-bind _ (Keeps-attempt (Keeps-ask _)) (λ r. refresh_listed_keeps (m ∷ ms) r)

    write_one_keeps :
        (now : Instant) (values : List (String × MetricsTuple)) (m : Monitor) (o : Option String)
        → IsKept (write_one h remote u org now values m o)
    unfolding write_one write_sample
    write_one_keeps now values m none = Keeps-pure tt
    write_one_keeps now values m (some id) = with_lock_keeps m.id _

    write_each_keeps :
        (now : Instant) (values : List (String × MetricsTuple)) (ms : List Monitor)
        → IsKept (write_each h remote u org now values ms)
    unfolding write_each
    write_each_keeps now values [] = Keeps-pure tt
    write_each_keeps now values (m ∷ ms) =
        Keeps-then (write_one_keeps now values m m.cc_metrics_id) (write_each_keeps now values ms)

    write_fetched_keeps :
        (ms : List Monitor) (r : Result (List (String × MetricsTuple)))
        → IsKept (write_fetched h remote u org ms r)
    unfolding write_fetched
    write_fetched_keeps ms (err e) = bump_each-Keeps before h remote ms
    write_fetched_keeps ms (ok values) =
        Keeps-bind _ Keeps-utc_now (λ now. write_each_keeps now values ms)

    batch_metrics_keeps :
        (session : Session) (ms : List Monitor) → IsKept (batch_metrics h remote u session org ms)
    unfolding batch_metrics run_metrics_batch
    batch_metrics_keeps session [] = Keeps-pure tt
    batch_metrics_keeps session (m ∷ ms) =
        Keeps-bind _ (Keeps-attempt (Keeps-ask _)) (λ r. write_fetched_keeps (m ∷ ms) r)

  found_user_keeps : (id : Uuid) (o : Option User) → IsKept (found_user h remote id o)
  unfolding found_user
  found_user_keeps id none = Keeps-throw _
  found_user_keeps id (some u) = Keeps-pure u

  open_session_keeps : (o : Option Session) → IsKept (open_session h remote o)
  unfolding open_session
  open_session_keeps none = Keeps-throw _
  open_session_keeps (some s) = Keeps-pure s

  poll_user_org_keeps : (g : OrgGroup) → IsKept (poll_user_org h remote g)
  unfolding poll_user_org poll_as
  poll_user_org_keeps g = Keeps-bind _ (Keeps-select _) (λ row.
      Keeps-bind _ (found_user_keeps g.user_id row) (λ user.
        Keeps-bind _ (open_session_keeps (remote.decrypt user)) (λ session.
          Keeps-then (refresh_apps_keeps g.user_id g.cc_org_id session _)
            (batch_metrics_keeps g.user_id g.cc_org_id session g.monitors))))

  poll_each_keeps : (gs : List OrgGroup) → IsKept (poll_each h remote gs)
  unfolding poll_each
  poll_each_keeps [] = Keeps-pure tt
  poll_each_keeps (g ∷ gs) = Keeps-then (Keeps-attempt (poll_user_org_keeps g)) (poll_each_keeps gs)

  poll_due_keeps :
      (order : List OrgGroup → List OrgGroup) (ms : List Monitor)
      → IsKept (poll_due h remote order ms)
  unfolding poll_due
  poll_due_keeps order [] = Keeps-pure tt
  poll_due_keeps order (m ∷ ms) = poll_each_keeps _

  poll_once_keeps : (order : List OrgGroup → List OrgGroup) → IsKept (poll_once h remote order)
  unfolding poll_once
  poll_once_keeps order =
      Keeps-bind _ (Keeps-query _ (λ now fresh db p. p)) (λ due. poll_due_keeps order due)

-- Without the locks nothing is written: where no lock can be had, because other instances hold
-- them, a whole cycle, with all its users and organisations, leaves the database as it was but for
-- the times of the last polls, whatever Clever Cloud and Warp10 answer and whichever calls fail.
pub poll_once_unlocked :
    (h : Host) (remote : Remote) (order : List OrgGroup → List OrgGroup) (w : World)
    → ((id : Uuid) (n : ℕ) → remote.lock id n ≡ false)
    → without_polls (run (poll_once h remote order) w).1.db ≡ without_polls w.db
poll_once_unlocked h remote order w taken =
    (Keeps-run (poll_once_keeps h remote taken w.db order) w (record { on_db = refl })).on_db
