-- ===== src/Store/Monitors.antt =====
-- db/monitors.rs and db/monitor_state_history.rs: the queries on monitors and on the history of
-- their states. The primary keys are: one monitor for an id, one history row for a monitor and an
-- instant.
pub mod Cc
use myccmonitor.Prelude.{
  ℕ, String, Bool, false, not, ◌&&◌, Option, none, some, List, [], ◌∷◌, if◌then◌else◌, ◌==◌, ltb,
  any, filter, find, count_by, update_where, str_eq, map,
}
use myccmonitor.Json.{Uuid, Instant}
use myccmonitor.Store.Rows.{Monitor, HistoryRow}
use myccmonitor.Store.Tables.{Db, Alert}

abbrev pub option_str_eq : Option String → String → Bool
option_str_eq none s = false
option_str_eq (some t) s = str_eq t s

abbrev pub is_owned : Uuid → Uuid → Monitor → Bool
is_owned user_id id m = (m.id == id) && (m.user_id == user_id)

unfoldable pub find_by_id_for_user : Uuid → Uuid → Db → Option Monitor
find_by_id_for_user user_id id db = find (is_owned user_id id) db.monitors

-- `SELECT * FROM monitors WHERE user_id = $1`
unfoldable pub list_for_user : Uuid → Db → List Monitor
list_for_user user_id db = filter (λ m. m.user_id == user_id) db.monitors

abbrev pub is_at : Uuid → String → String → Monitor → Bool
is_at user_id cc_org_id cc_resource_id m =
    (m.user_id == user_id)
    && (option_str_eq m.cc_org_id cc_org_id && option_str_eq m.cc_resource_id cc_resource_id)

unfoldable pub find_by_cc_resource : Uuid → String → String → Db → Option Monitor
find_by_cc_resource user_id cc_org_id cc_resource_id db =
    find (is_at user_id cc_org_id cc_resource_id) db.monitors

-- DELETE of the monitors that pass the test, with what `ON DELETE CASCADE` and `ON DELETE SET NULL`
-- do of the rows that refer to them: the number of monitors deleted, and the database.
abbrev pub is_dropped : (Monitor → Bool) → Db → Uuid → Bool
is_dropped p db id = any (λ m. (m.id == id) && p m) db.monitors

abbrev pub null_dropped : (Monitor → Bool) → Db → Option Uuid → Option Uuid
null_dropped p db none = none
null_dropped p db (some id) = if is_dropped p db id then none else some id

unfoldable pub delete_monitors : (Monitor → Bool) → Db → ℕ × Db
delete_monitors p db = (
  count_by p db.monitors,
  record db {
    monitors = filter (λ m. not (p m)) db.monitors;
    history = filter (λ r. not (is_dropped p db r.monitor_id)) db.history;
    readings = filter (λ r. not (is_dropped p db r.monitor_id)) db.readings;
    members = filter (λ g. not (is_dropped p db g.monitor_id)) db.members;
    alerts =
        map {A = Alert} (λ a. record a { monitor_id = null_dropped p db a.monitor_id }) db.alerts;
  },
)

unfoldable pub delete_by_cc_resource : Uuid → String → String → Db → ℕ × Db
unfolding delete_monitors
delete_by_cc_resource user_id cc_org_id cc_resource_id db =
    delete_monitors (is_at user_id cc_org_id cc_resource_id) db

-- `WHERE id = $1 AND current_state <> $2`
abbrev pub changes : Uuid → String → Monitor → Bool
changes monitor_id new_state m = (m.id == monitor_id) && not (str_eq m.current_state new_state)

abbrev pub with_state : String → Option String → Instant → Monitor → Monitor
with_state new_state new_message now m = record m {
  current_state = new_state;
  current_message = new_message;
  current_state_since = some now;
  updated_at = now;
}

unfoldable pub set_state_if_changed :
    Uuid → String → Option String → Instant → Db → Option (String × Instant) × Db
set_state_if_changed monitor_id new_state new_message now db = (
  (if any (changes monitor_id new_state) db.monitors then some (new_state, now) else none),
  record db {
    monitors =
        update_where (changes monitor_id new_state) (with_state new_state new_message now)
          db.monitors;
  },
)

-- `UPDATE monitors SET acknowledged = $2, updated_at = now() WHERE id = $1` (rules/actions.rs)
unfoldable pub set_acknowledged : Uuid → Bool → Instant → Db → Db
set_acknowledged monitor_id ack now db = record db {
  monitors =
      update_where (λ m. m.id == monitor_id)
        (λ m. record m { acknowledged = ack; updated_at = now }) db.monitors;
}

-- `UPDATE monitors SET last_poll_at = now() WHERE id = $1` (monitors/poller.rs)
unfoldable pub bump_last_poll : Uuid → Instant → Db → Db
bump_last_poll monitor_id now db = record db {
  monitors =
      update_where (λ m. m.id == monitor_id) (λ m. record m { last_poll_at = some now })
        db.monitors;
}

abbrev pub same_change : Uuid → Instant → HistoryRow → Bool
same_change monitor_id changed_at r = (r.monitor_id == monitor_id) && (r.changed_at == changed_at)

-- `ON CONFLICT (monitor_id, changed_at) DO NOTHING`
unfoldable pub insert_history : Uuid → String → Option String → Instant → String → Db → Db
insert_history monitor_id state message changed_at source db = record db {
  history =
      if any (same_change monitor_id changed_at) db.history
      then db.history
      else record {
        monitor_id = monitor_id;
        state = state;
        message = message;
        changed_at = changed_at;
        source = source;
      }
        ∷ db.history;
}

-- `ORDER BY changed_at DESC LIMIT 1` among the rows of a monitor.
unfoldable pub latest_change : Uuid → List HistoryRow → Option HistoryRow
latest_change monitor_id [] = none
latest_change monitor_id (r ∷ rs) =
    let rest = latest_change monitor_id rs in
    if r.monitor_id == monitor_id
    then elim rest [
      | none ↦ some r
      | some s ↦ if ltb r.changed_at s.changed_at then some s else some r
    ]
    else rest

-- The query of `state_held_for`.
unfoldable pub latest_owned_change : Uuid → Uuid → Db → Option HistoryRow
unfolding latest_change
latest_owned_change user_id monitor_id db =
    if any (is_owned user_id monitor_id) db.monitors
    then latest_change monitor_id db.history
    else none
