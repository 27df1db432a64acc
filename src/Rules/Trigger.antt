-- ===== src/Rules/Trigger.antt =====
-- rules/exec.rs: what set an evaluation off, and how it ended.
use myccmonitor.Prelude.{String, Option, none, some}
use myccmonitor.Json.{Uuid}

pub data Trigger : Type 0 where
  rule_chain : (from_rule_id : Uuid) → Trigger
  poll : (monitor_id : Uuid) → Trigger
  webhook : Trigger
  escalation : (from_rule_id : Uuid) → Trigger

unfoldable pub kind : Trigger → String
kind (rule_chain from_rule_id) = "rule_chain"
kind (poll monitor_id) = "poll"
kind webhook = "webhook"
kind (escalation from_rule_id) = "escalation"

unfoldable pub ref_id : Trigger → Option Uuid
ref_id (rule_chain from_rule_id) = some from_rule_id
ref_id (poll monitor_id) = some monitor_id
ref_id webhook = none
ref_id (escalation from_rule_id) = some from_rule_id

pub data Outcome : Type 0 where
  matched not_matched cooldown_skipped error : Outcome
