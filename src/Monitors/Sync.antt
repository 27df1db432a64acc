-- ===== src/Monitors/Sync.antt =====
-- monitors/sync.rs: the monitors of one organisation against what Clever Cloud lists.
pub mod Complete
pub mod Rows
pub mod Upserts
use myccmonitor.Prelude.{
  ℕ, String, Bool, Option, none, some, List, [], ◌∷◌, ◌++◌, if◌then◌else◌, str_eq, map,
}
use myccmonitor.Prelude.Int.{pos, ltb_ℤ}
use myccmonitor.Json.{Uuid, Instant}
use myccmonitor.Task.{◌>>=◌, ◌>>◌, pure, attempt}
use myccmonitor.World.{Async, ask, query, select, utc_now}
use myccmonitor.Store.Rows.{Monitor}
use myccmonitor.Store.Tables.{Db, monitor_state}
use myccmonitor.Store.Monitors.{insert_history}
use myccmonitor.Store.Monitors.Cc.{MonitorInput, upsert_cc, delete_missing_in, list_for_org}
use myccmonitor.Rules.Cooldown.{seconds_since}
use myccmonitor.Rules.Actions.{broadcast_via_pg}
use myccmonitor.Monitors.Remote.{CcApplication, CcAddonProvider, CcAddon, Session, Remote}
use myccmonitor.Monitors.StateMap.{map_cc_app_state}

-- Both results are logged and dropped.
unfoldable pub report_state : Monitor → String → Instant → Async (Unit {0})
report_state m cc_org_id since = do
  attempt (
      query (λ now fresh db.
        (tt, insert_history m.id m.current_state m.current_message since "sync" db)))
  attempt (
      broadcast_via_pg cc_org_id
        (monitor_state m.id m.current_state m.current_message (some since)))
  pure tt

unfoldable pub record_since : Monitor → String → Option Instant → Async (Unit {0})
unfolding report_state
record_since m cc_org_id none = pure tt
record_since m cc_org_id (some since) = do
  now ← utc_now
  if ltb_ℤ (pos 5) (seconds_since now since) then pure tt else report_state m cc_org_id since

unfoldable pub record_sync_state : Monitor → String → Async (Unit {0})
unfolding record_since
record_sync_state m cc_org_id =
    if str_eq m.current_state "unknown"
    then pure tt
    else record_since m cc_org_id m.current_state_since

abbrev pub or_else : Option String → Option String → Option String
or_else none t = t
or_else (some s) t = some s

-- `p.name.clone().or_else(|| p.id.clone())`
abbrev pub provider_name : Option CcAddonProvider → Option String
provider_name none = none
provider_name (some p) = or_else p.name p.id

abbrev pub unwrap_or : Option String → String → String
unwrap_or none t = t
unwrap_or (some s) t = s

module _ (remote : Remote) (user_id : Uuid) (cc_org_id : String) where
  abbrev pub app_input : CcApplication → MonitorInput
  app_input app = record {
    cc_org_id = some cc_org_id;
    kind = "cc_application";
    cc_resource_id = some app.id;
    cc_metrics_id = some app.id;
    display_name = app.name;
    metadata = some (remote.app_metadata app);
    initial_state = map_cc_app_state app.state;
  }

  abbrev pub addon_input : CcAddon → MonitorInput
  addon_input addon = record {
    cc_org_id = some cc_org_id;
    kind = "cc_addon";
    cc_resource_id = some addon.id;
    cc_metrics_id = some (unwrap_or addon.real_id addon.id);
    display_name = addon.name;
    metadata = some (remote.addon_metadata addon (provider_name addon.provider));
    initial_state = "ok";
  }

  unfoldable pub upsert_one : MonitorInput → Async (Unit {0})
  unfolding record_sync_state
  upsert_one input = do
    m ← query (λ now fresh db. upsert_cc user_id input now fresh db)
    record_sync_state m cc_org_id

  -- Each of the two loops, on the inputs that it makes.
  unfoldable pub upsert_each : List MonitorInput → Async (Unit {0})
  unfolding upsert_one
  upsert_each [] = pure tt
  upsert_each (input ∷ rest) = do upsert_one input; upsert_each rest

  abbrev pub kept_ids : List CcApplication → List CcAddon → List String
  kept_ids apps addons = map (λ a. a.id) apps ++ map (λ a. a.id) addons

  unfoldable pub sync_listed : List CcApplication → List CcAddon → Async (List Monitor)
  unfolding upsert_each
  sync_listed apps addons = do
    upsert_each (map app_input apps)
    upsert_each (map addon_input addons)
    query (λ now fresh db. delete_missing_in user_id cc_org_id (kept_ids apps addons) db)
    select (list_for_org remote.text_le user_id cc_org_id)

  unfoldable pub sync_org : Session → Async (List Monitor)
  unfolding sync_listed
  sync_org session = do
    apps ← ask (remote.applications session cc_org_id)
    addons ← ask (remote.addons session cc_org_id)
    sync_listed apps addons
