-- ===== src/Host.antt =====
-- What the backend takes from other crates and from the platform, as one record of functions:
-- parsers, serde's decoders, floating point, formatting. No law is assumed of them here; a theorem
-- that needs one takes it as a hypothesis.
use Prim.Native.Char.{Char}
use myccmonitor.Prelude.{ℕ, String, Bool, Option, List}
use myccmonitor.Json.{Uuid, Float, Json}
use myccmonitor.Error.{Error}
use myccmonitor.Store.Rows.{Monitor, AutoRules, Rule, BusMessage}
use myccmonitor.Store.Tables.{EscalationMessage}
use myccmonitor.Webhooks.Event.{WebhookEnvelope}
use myccmonitor.Rules.Condition.{Condition, Action}
use myccmonitor.Rules.Field.{FieldValue}

-- `f64`: `<`, `<=`, `-`, `abs`, `EPSILON`, and `u32 as f64`.
pub record FloatOps : Type 0 where
  pub lt : Float → Float → Bool
  pub le : Float → Float → Bool
  pub sub : Float → Float → Float
  pub abs : Float → Float
  pub epsilon : Float
  pub of_u32 : ℕ → Float

-- The JSON context of a notification template (notifications/dispatch.rs, `ctx_value`).
pub record TemplateContext : Type 0 where
  pub rule_id : Uuid
  pub rule_name : String
  pub trigger_kind : String
  pub trigger_ref : Option Uuid
  pub monitor : Option Monitor

pub record Host : Type 0 where
  pub float : FloatOps
  -- `Uuid::parse_str(s).ok()`
  pub parse_uuid : String → Option Uuid
  -- `Uuid::new_v4()` at a step
  pub new_v4 : ℕ → Uuid
  -- `serde_json::Number::as_f64`
  pub as_f64 : ℕ → Option Float
  -- `serde_json::from_value` at the types of rules/condition.rs and db/monitor_groups.rs
  pub decode_condition : Json → Option Condition
  pub decode_actions : Json → Option (List Action)
  pub decode_auto_rules : Json → Option AutoRules
  -- `Regex::new(p).ok()` and `is_match`
  pub compile_regex : String → Option (String → Bool)
  -- `format!("{:?}", x)`
  pub debug_value : FieldValue → String
  pub debug_json : Json → String
  -- `handlebars` on a template; `none` is a render error
  pub render_template : String → TemplateContext → Option String
  -- `char::is_whitespace`
  pub is_whitespace : Char → Bool
  -- `format!("{e}")` of an error
  pub show_error : Error → String
  -- `serde_json::to_value` of a condition, of actions and of a row of rules, and back
  pub encode_condition : Condition → Json
  pub encode_actions : List Action → Json
  pub encode_rule : Rule → Json
  pub decode_rule : Json → Option Rule
  -- `format!("v{}", seconds)`
  pub version_name : ℕ → String
  -- `serde_json::from_slice` on the payload of a message and on the body of a webhook
  pub decode_bus_message : List ℕ → Option BusMessage
  pub decode_envelope : List ℕ → Option WebhookEnvelope
  pub decode_escalation : List ℕ → Option EscalationMessage
