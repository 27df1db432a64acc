-- ===== src/Store/Monitors/Cc.antt =====
-- db/monitors.rs: the monitors that Clever Cloud's resources have.
pub mod Upsert
use myccmonitor.Prelude.{
  ℕ, String, Bool, true, false, not, ◌&&◌, ◌||◌, Option, none, some, List, [], ◌∷◌, if◌then◌else◌,
  ◌==◌, any, filter, find, update_where, str_eq,
}
use myccmonitor.Prelude.Int.{pos}
use myccmonitor.Json.{Uuid, Instant, Json}
use myccmonitor.Store.Rows.{Monitor}
use myccmonitor.Store.Tables.{Db}
use myccmonitor.Store.Monitors.{option_str_eq, delete_monitors}

pub record MonitorInput : Type 0 where
  pub cc_org_id : Option String
  pub kind : String
  pub cc_resource_id : Option String
  pub cc_metrics_id : Option String
  pub display_name : String
  pub metadata : Option Json
  pub initial_state : String

-- Equality of columns that may be null: null equals nothing.
abbrev pub both_eq : Option String → Option String → Bool
both_eq none t = false
both_eq (some s) t = option_str_eq t s

-- `ON CONFLICT (user_id, cc_org_id, kind, cc_resource_id) WHERE cc_resource_id IS NOT NULL`
abbrev pub conflicts : Uuid → MonitorInput → Monitor → Bool
conflicts user_id input m =
    (m.user_id == user_id)
    && (both_eq m.cc_org_id input.cc_org_id
        && (str_eq m.kind input.kind && both_eq m.cc_resource_id input.cc_resource_id))

abbrev pub since_now : String → Instant → Option Instant
since_now s now = if str_eq s "unknown" then none else some now

-- `monitors.current_state = 'unknown' AND EXCLUDED.current_state <> 'unknown'`
abbrev pub heals : MonitorInput → Monitor → Bool
heals input m = str_eq m.current_state "unknown" && not (str_eq input.initial_state "unknown")

unfoldable pub refreshed : MonitorInput → Instant → Monitor → Monitor
refreshed input now m = record m {
  cc_metrics_id = input.cc_metrics_id;
  display_name = input.display_name;
  metadata = input.metadata;
  current_state = if heals input m then input.initial_state else m.current_state;
  current_state_since = if heals input m then some now else m.current_state_since;
  updated_at = now;
}

-- The other columns by their defaults.
unfoldable pub new_monitor : Uuid → MonitorInput → Instant → Uuid → Monitor
new_monitor user_id input now fresh = record {
  id = fresh;
  user_id = user_id;
  cc_org_id = input.cc_org_id;
  kind = input.kind;
  cc_resource_id = input.cc_resource_id;
  cc_metrics_id = input.cc_metrics_id;
  display_name = input.display_name;
  enabled = true;
  poll_interval_seconds = pos 60;
  current_state = input.initial_state;
  current_message = none;
  current_state_since = since_now input.initial_state now;
  last_poll_at = none;
  acknowledged = false;
  metadata = input.metadata;
  created_at = now;
  updated_at = now;
}

abbrev pub upserted :
    Uuid → MonitorInput → Instant → Uuid → List Monitor → Option Monitor → Monitor × List Monitor
upserted user_id input now fresh rows none =
    (new_monitor user_id input now fresh, new_monitor user_id input now fresh ∷ rows)
upserted user_id input now fresh rows (some m) =
    (refreshed input now m, update_where (conflicts user_id input) (refreshed input now) rows)

-- The row, and the table.
unfoldable pub upsert_rows :
    Uuid → MonitorInput → Instant → Uuid → List Monitor → Monitor × List Monitor
unfolding refreshed new_monitor
upsert_rows user_id input now fresh rows =
    upserted user_id input now fresh rows (find (conflicts user_id input) rows)

unfoldable pub upsert_cc : Uuid → MonitorInput → Instant → Uuid → Db → Monitor × Db
unfolding upsert_rows
upsert_cc user_id input now fresh db =
    let (m, rows) = upsert_rows user_id input now fresh db.monitors in
    (m, record db { monitors = rows })

abbrev pub is_of_org : Uuid → String → Monitor → Bool
is_of_org user_id cc_org_id m = (m.user_id == user_id) && option_str_eq m.cc_org_id cc_org_id

-- `cc_resource_id <> ALL ($3)`: of null where the array has an element, and so not true.
abbrev pub is_none_of : Option String → List String → Bool
is_none_of none [] = true
is_none_of none (k ∷ ks) = false
is_none_of (some id) kept_ids = not (any (λ k. str_eq id k) kept_ids)

abbrev pub is_missing : Uuid → String → List String → Monitor → Bool
is_missing user_id cc_org_id kept_ids m =
    is_of_org user_id cc_org_id m
    && ((str_eq m.kind "cc_application" || str_eq m.kind "cc_addon")
        && is_none_of m.cc_resource_id kept_ids)

unfoldable pub delete_missing_in : Uuid → String → List String → Db → ℕ × Db
delete_missing_in user_id cc_org_id kept_ids db =
    delete_monitors (is_missing user_id cc_org_id kept_ids) db

-- `ORDER BY kind, display_name`, in the order of texts of the database's collation.
module _ (text_le : String → String → Bool) where
  abbrev pub comes_first : Monitor → Monitor → Bool
  comes_first a b =
      if text_le a.kind b.kind && text_le b.kind a.kind
      then text_le a.display_name b.display_name
      else text_le a.kind b.kind

  unfoldable pub insert_ordered : Monitor → List Monitor → List Monitor
  insert_ordered m [] = m ∷ []
  insert_ordered m (x ∷ xs) =
      let rest = insert_ordered m xs in if comes_first m x then m ∷ x ∷ xs else x ∷ rest

  unfoldable pub ordered : List Monitor → List Monitor
  unfolding insert_ordered
  ordered [] = []
  ordered (m ∷ ms) = insert_ordered m (ordered ms)

  unfoldable pub list_for_org : Uuid → String → Db → List Monitor
  unfolding ordered
  list_for_org user_id cc_org_id db = ordered (filter (is_of_org user_id cc_org_id) db.monitors)
