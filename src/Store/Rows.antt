-- ===== src/Store/Rows.antt =====
-- The rows of the tables: the `FromRow` structs of backend/src/db, field for field.
use myccmonitor.Prelude.{ℕ, String, Bool, Option, List}
use myccmonitor.Prelude.Int.{ℤ}
use myccmonitor.Json.{Uuid, Instant, Float, Json}

-- db/monitors.rs
pub record Monitor : Type 0 where
  pub id : Uuid
  pub user_id : Uuid
  pub cc_org_id : Option String
  pub kind : String
  pub cc_resource_id : Option String
  pub cc_metrics_id : Option String
  pub display_name : String
  pub enabled : Bool
  pub poll_interval_seconds : ℤ
  pub current_state : String
  pub current_message : Option String
  pub current_state_since : Option Instant
  pub last_poll_at : Option Instant
  pub acknowledged : Bool
  pub metadata : Option Json
  pub created_at : Instant
  pub updated_at : Instant

-- db/users.rs
pub record User : Type 0 where
  pub id : Uuid
  pub cc_user_id : String
  pub email : Option String
  pub display_name : Option String
  pub oauth_token_enc : List ℕ
  pub oauth_secret_enc : List ℕ
  pub oauth_nonce : List ℕ
  pub created_at : Instant
  pub updated_at : Instant
  pub last_login_at : Instant

-- A row of monitor_state_history.
pub record HistoryRow : Type 0 where
  pub monitor_id : Uuid
  pub state : String
  pub message : Option String
  pub changed_at : Instant
  pub source : String

-- db/metric_readings.rs
pub record MetricReading : Type 0 where
  pub monitor_id : Uuid
  pub metric_name : String
  pub ts : Instant
  pub value : Float

-- db/monitor_groups.rs
pub record MonitorGroup : Type 0 where
  pub id : Uuid
  pub user_id : Uuid
  pub name : String
  pub description : Option String
  pub auto_rules : Option Json
  pub created_at : Instant
  pub updated_at : Instant

pub record AutoRules : Type 0 where
  pub name_pattern : Option String
  pub kinds : Option (List String)

-- A row of monitor_group_members.
pub record GroupMember : Type 0 where
  pub group_id : Uuid
  pub monitor_id : Uuid

-- db/rules.rs
pub record Rule : Type 0 where
  pub id : Uuid
  pub user_id : Uuid
  pub name : String
  pub is_enabled : Bool
  pub condition : Json
  pub actions : Json
  pub cooldown_seconds : ℤ
  pub last_fired_at : Option Instant
  pub last_outcome_state : Option String
  pub metadata : Option Json
  pub created_at : Instant
  pub last_modified_at : Instant

-- A row of rule_dependencies.
pub record Dependency : Type 0 where
  pub rule_id : Uuid
  pub ref_kind : String
  pub ref_id : Uuid

-- db/notification_channels.rs
pub record NotificationChannel : Type 0 where
  pub id : Uuid
  pub user_id : Uuid
  pub kind : String
  pub name : String
  pub config : Json
  pub enabled : Bool
  pub failure_count : ℤ
  pub last_success_at : Option Instant
  pub last_failure_at : Option Instant
  pub last_failure_message : Option String
  pub created_at : Instant
  pub updated_at : Instant

-- db/rules.rs: a version of a rule, with the snapshot of its row.
pub record RuleVersion : Type 0 where
  pub rule_id : Uuid
  pub version_id : String
  pub rule : Json
  pub comment : Option String
  pub saved_at : Instant

-- db/webhook_configs.rs
pub record WebhookConfig : Type 0 where
  pub id : Uuid
  pub user_id : Uuid
  pub cc_org_id : String
  pub token : String
  pub cc_webhook_id : Option String
  pub subscribed_events : List String
  pub last_received_at : Option Instant
  pub failure_count : ℤ
  pub created_at : Instant

-- A row of webhook_dedup.
pub record DedupKey : Type 0 where
  pub key : String
  pub expires_at : Instant

-- bus/message.rs
pub record BusMessage : Type 0 where
  pub token : String
  pub user_id : Uuid
  pub cc_org_id : String
  pub raw_body : List ℕ
  pub received_at_ms : ℕ
