-- ===== src/Bus/Webhooks.antt =====
-- bus/consumer.rs: the messages of the topic `cc-webhooks`.
pub mod Quiet
pub mod Transition
pub mod Isolation
use myccmonitor.Prelude.{
  ℕ, ◌+◌, String, Bool, true, false, not, Option, none, some, List, if◌then◌else◌, str_eq,
}
use myccmonitor.Json.{Uuid, Instant}
use myccmonitor.Error.{Error, Result, ok, err}
use myccmonitor.Task.{◌>>=◌, ◌>>◌, pure, attempt}
use myccmonitor.World.{Async, query, select, utc_now}
use myccmonitor.Host.{Host}
use myccmonitor.Store.Rows.{Monitor, BusMessage}
use myccmonitor.Store.Tables.{monitor_state}
use myccmonitor.Store.Monitors.{
  find_by_cc_resource, delete_by_cc_resource, set_state_if_changed, insert_history,
}
use myccmonitor.Store.Monitors.Cc.{MonitorInput, upsert_cc}
use myccmonitor.Store.Webhooks.{find_by_token, try_record}
use myccmonitor.Webhooks.Event.{WebhookEnvelope, Routing, routing, dedup_key}
use myccmonitor.Rules.Trigger.{webhook}
use myccmonitor.Rules.Actions.{broadcast_via_pg}
use myccmonitor.Rules.Exec.{trigger_for_monitor}

pub data EventEffect : Type 0 where
  upsert : (kind : String) (state : String) (message : Option String) → EventEffect
  set_state : (state : String) (message : Option String) → EventEffect
  delete : EventEffect

unfoldable pub map_event : String → Option EventEffect
map_event event =
    if str_eq event "APPLICATION_CREATION"
    then some (upsert "cc_application" "unknown" (some "created"))
    else if str_eq event "APPLICATION_REDEPLOY"
    then some (set_state "unknown" (some "deploying"))
    else if str_eq event "GIT_PUSH"
    then some (set_state "unknown" (some "deploying"))
    else if str_eq event "APPLICATION_STOP"
    then some (set_state "critical" (some "stopped"))
    else if str_eq event "DEPLOYMENT_SUCCESS"
    then some (set_state "ok" (some "deploy succeeded"))
    else if str_eq event "DEPLOYMENT_FAIL"
    then some (set_state "critical" (some "deploy failed"))
    else if str_eq event "APPLICATION_DELETION"
    then some delete
    else if str_eq event "ADDON_CREATION"
    then some (upsert "cc_addon" "ok" (some "created"))
    else if str_eq event "ADDON_DELETION"
    then some delete
    else none

-- `Duration::seconds(60)`
abbrev pub dedup_window : ℕ
dedup_window = 60000000

-- `webhook_dedup::try_record(pool, &key, …)`: the expiry is computed from `Utc::now()`.
unfoldable pub record_key : String → Async Bool
record_key key = do
  expires ← utc_now
  query (λ now fresh db. try_record key (expires + dedup_window) now db)

-- `Ok(true) => {}`, `Ok(false) => return Ok(())`, `Err(e) => warn!(…)`
abbrev pub is_duplicate : Result Bool → Bool
is_duplicate (ok true) = false
is_duplicate (ok false) = true
is_duplicate (err e) = false

-- The input of the upsert of an event.
abbrev pub input_of : BusMessage → Routing → String → MonitorInput
input_of msg r kind = record {
  cc_org_id = some msg.cc_org_id;
  kind = kind;
  cc_resource_id = some r.resource_id;
  cc_metrics_id = some r.resource_id;
  display_name = r.resource_id;
  metadata = none;
  initial_state = "unknown";
}

module _ (h : Host) where
  -- The transition that the update reports, if there is one.
  unfoldable pub announce_change :
      BusMessage → Uuid → Option String → Instant → Option (String × Instant) → Async (Unit {0})
  announce_change msg monitor_id message now none = pure tt
  announce_change msg monitor_id message now (some (after, since)) = do
    query (λ _ fresh db. (tt, insert_history monitor_id after message now "webhook" db))
    broadcast_via_pg msg.cc_org_id (monitor_state monitor_id after message (some since))
    attempt (trigger_for_monitor h msg.user_id monitor_id webhook)
    pure tt

  unfoldable pub apply_state_change :
      BusMessage → Uuid → String → Option String → Instant → Async (Unit {0})
  unfolding announce_change
  apply_state_change msg monitor_id new_state message now = do
    changed ← query (λ now' fresh db. set_state_if_changed monitor_id new_state message now' db)
    announce_change msg monitor_id message now changed

  unfoldable pub set_state_found :
      BusMessage → String → Option String → Instant → Option Monitor → Async (Unit {0})
  unfolding apply_state_change
  set_state_found msg new_state message now none = pure tt
  set_state_found msg new_state message now (some m) =
      apply_state_change msg m.id new_state message now

  -- `match effect { … }`
  unfoldable pub apply_effect : BusMessage → Routing → Instant → EventEffect → Async (Unit {0})
  unfolding set_state_found apply_state_change
  apply_effect msg r now (upsert kind new_state message) = do
    m ← query (λ now' fresh db. upsert_cc msg.user_id (input_of msg r kind) now' fresh db)
    apply_state_change msg m.id new_state message now
  apply_effect msg r now (set_state new_state message) = do
    found ← select (find_by_cc_resource msg.user_id msg.cc_org_id r.resource_id)
    set_state_found msg new_state message now found
  apply_effect msg r now delete = do
    query (λ now' fresh db. delete_by_cc_resource msg.user_id msg.cc_org_id r.resource_id db)
    pure tt

  unfoldable pub process_effect : BusMessage → Routing → Option EventEffect → Async (Unit {0})
  unfolding apply_effect
  process_effect msg r none = pure tt
  process_effect msg r (some effect) = do now ← utc_now; apply_effect msg r now effect

  unfoldable pub process_routed : BusMessage → WebhookEnvelope → Option Routing → Async (Unit {0})
  unfolding process_effect map_event
  process_routed msg e none = pure tt
  process_routed msg e (some r) =
      if not (str_eq r.owner_id msg.cc_org_id)
      then pure tt
      else process_effect msg r (map_event e.event)

  unfoldable pub process_new : BusMessage → WebhookEnvelope → Result Bool → Async (Unit {0})
  unfolding process_routed
  process_new msg e recorded =
      if is_duplicate recorded
      then pure tt
      else (do attempt (select (find_by_token msg.token)); process_routed msg e (routing e))

  unfoldable pub process_envelope : BusMessage → Option WebhookEnvelope → Async (Unit {0})
  unfolding process_new record_key dedup_key
  process_envelope msg none = pure tt
  process_envelope msg (some e) = do
    recorded ← attempt (record_key (dedup_key e))
    process_new msg e recorded

  unfoldable pub process_message : Option BusMessage → Async (Unit {0})
  unfolding process_envelope
  process_message none = pure tt
  process_message (some msg) = process_envelope msg (h.decode_envelope msg.raw_body)

  unfoldable pub process_one : List ℕ → Async (Unit {0})
  unfolding process_message
  process_one payload = process_message (h.decode_bus_message payload)
