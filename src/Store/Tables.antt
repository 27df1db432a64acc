-- ===== src/Store/Tables.antt =====
-- The whole database as the backend sees it, and what leaves it: the frames of `pg_notify`
-- (ws/mod.rs), the escalations handed to Pulsar (bus/escalations.rs) and the messages that an
-- adapter delivered.
use myccmonitor.Prelude.{ℕ, String, Bool, Option, List}
use myccmonitor.Json.{Uuid, Instant, Float}
use myccmonitor.Error.{Error}
use myccmonitor.Store.Rows.{
  Monitor, HistoryRow, MetricReading, MonitorGroup, GroupMember, Rule, Dependency,
  NotificationChannel, RuleVersion, WebhookConfig, DedupKey, BusMessage, User,
}

-- The `json!` summaries of rules/actions.rs, one constructor for each literal.
pub data Summary : Type 0 where
  target_missing anti_loop rule_disappeared : Summary
  state_set : (monitor_id : Uuid) (before : String) (after : String) (chained_rules : ℕ) → Summary
  delivered : (alert_id : Uuid) (channel_id : Uuid) → Summary
  not_delivered : (channel_id : Uuid) (error : Error) → Summary
  escalated : (target_rule_id : Uuid) (delay_seconds : ℕ) → Summary

-- A row of rule_firings.
pub record RuleFiring : Type 0 where
  pub id : Uuid
  pub rule_id : Uuid
  pub user_id : Uuid
  pub fired_at : Instant
  pub trigger_kind : String
  pub trigger_ref : Option Uuid
  pub outcome : String
  pub actions_executed : Option (List Summary)
  pub error_message : Option String

-- A row of alerts, with the fields of its payload.
pub record Alert : Type 0 where
  pub id : Uuid
  pub user_id : Uuid
  pub monitor_id : Option Uuid
  pub rule_id : Option Uuid
  pub level : String
  pub message : Option String
  pub channel_id : Uuid
  pub channel_kind : String
  pub subject : String
  pub trigger_kind : String
  pub delivered : Bool
  pub notified_at : Option Instant

-- ws/mod.rs
pub data WsFrame : Type 0 where
  monitor_state :
      (monitor_id : Uuid) (state : String) (message : Option String) (since : Option Instant)
      → WsFrame
  metrics_snapshot :
      (monitor_id : Uuid) (ts : Instant) (cpu mem disk net_in net_out : Option Float) → WsFrame
  webhook_health : (cc_org_id : String) (last_received_at : Instant) → WsFrame
  rule_firing :
      (rule_id : Uuid) (rule_name outcome : String) (fired_at : Instant) (trigger_kind : String)
      (trigger_ref : Option Uuid)
      → WsFrame

pub record BroadcastPayload : Type 0 where
  pub cc_org_id : String
  pub frame : WsFrame

-- bus/escalations.rs
pub record EscalationMessage : Type 0 where
  pub user_id : Uuid
  pub rule_id : Uuid
  pub from_rule_id : Uuid
  pub scheduled_at_ms : ℕ
  pub scheduled_for_ms : ℕ

-- A message that an adapter sent without an error.
pub record Delivery : Type 0 where
  pub channel_id : Uuid
  pub subject : String
  pub body : String

pub record Db : Type 0 where
  pub monitors : List Monitor
  pub history : List HistoryRow
  pub readings : List MetricReading
  pub groups : List MonitorGroup
  pub members : List GroupMember
  pub rules : List Rule
  pub dependencies : List Dependency
  pub firings : List RuleFiring
  pub channels : List NotificationChannel
  pub alerts : List Alert
  pub broadcasts : List BroadcastPayload
  pub escalations : List EscalationMessage
  pub deliveries : List Delivery
  pub versions : List RuleVersion
  pub users : List User
  pub webhooks : List WebhookConfig
  pub dedup : List DedupKey
  -- published on the topic `cc-webhooks`
  pub published : List BusMessage
  -- messages of a subscription that were acknowledged
  pub acked : List ℕ
