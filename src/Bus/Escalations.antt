-- ===== src/Bus/Escalations.antt =====
-- bus/escalations.rs: the delayed messages of the escalations.
pub mod Isolation
use myccmonitor.Prelude.{ℕ, Option, none, some, List, []}
use myccmonitor.Task.{◌>>=◌, ◌>>◌, pure}
use myccmonitor.World.{Async, select, guarded}
use myccmonitor.Host.{Host}
use myccmonitor.Store.Rows.{Rule}
use myccmonitor.Store.Tables.{EscalationMessage}
use myccmonitor.Store.Rules.{find_rule}
use myccmonitor.Rules.Trigger.{escalation}
use myccmonitor.Rules.Exec.{execute_rule, trigger_with_depth}

module _ (h : Host) where
  -- A new in-flight set, depth 0.
  unfoldable pub fire_rule : EscalationMessage → Option Rule → Async (Unit {0})
  fire_rule msg none = pure tt
  fire_rule msg (some rule) = do
    guarded (λ s. (tt, []))
    execute_rule h (trigger_with_depth h 8) rule (escalation msg.from_rule_id) 0
    pure tt

  unfoldable pub process_message : Option EscalationMessage → Async (Unit {0})
  unfolding fire_rule
  process_message none = pure tt
  process_message (some msg) = do
    rule ← select (find_rule msg.user_id msg.rule_id)
    fire_rule msg rule

  unfoldable pub process_one : List ℕ → Async (Unit {0})
  unfolding process_message
  process_one payload = process_message (h.decode_escalation payload)
