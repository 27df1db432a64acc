-- ===== src/Bus/Escalations/Isolation.antt =====
-- bus/escalations.rs: an escalation stays within the rows of its user.
use myccmonitor.Prelude.{ℕ, ◌≡◌, Option, none, some, List}
use myccmonitor.Task.{run}
use myccmonitor.Task.Invariant.{Keeps, Keeps-then, Keeps-pure, Keeps-run}
use myccmonitor.World.{World}
use myccmonitor.World.Laws.{OnDb, Keeps-select_bind, Keeps-guarded}
use myccmonitor.Host.{Host}
use myccmonitor.Store.Rows.{Rule}
use myccmonitor.Store.Tables.{Db, EscalationMessage}
use myccmonitor.Store.Rules.{find_rule}
use myccmonitor.Store.Confined.{Confined, Confined-refl, HasKeys}
use myccmonitor.Store.Confined.Lookups.{FoundRule, find_rule-Found}
use myccmonitor.Rules.Trigger.{escalation}
use myccmonitor.Rules.Exec.{trigger_with_depth}
use myccmonitor.Rules.Exec.Isolation.{execute_rule_keeps, trigger_with_depth_keeps}
use myccmonitor.Bus.Escalations.{fire_rule, process_message, process_one}

module _ (msg : EscalationMessage) (before : Db) (keys : HasKeys msg.user_id before)
    (h : Host) where
  fire_rule-Keeps :
      (o : Option Rule)
      → FoundRule msg.user_id before o
      → Keeps (OnDb (Confined msg.user_id before)) (fire_rule h msg o)
  unfolding fire_rule
  fire_rule-Keeps none own = Keeps-pure _
  fire_rule-Keeps (some rule) own = Keeps-then (Keeps-guarded _) (
      Keeps-then
        (execute_rule_keeps msg.user_id before keys rule own h (trigger_with_depth h 8)
          (trigger_with_depth_keeps msg.user_id before keys h 8) 0 (escalation msg.from_rule_id))
        (Keeps-pure _))

  process_message-Keeps : Keeps (OnDb (Confined msg.user_id before)) (process_message h (some msg))
  unfolding process_message
  process_message-Keeps =
      Keeps-select_bind (FoundRule msg.user_id before) (find_rule msg.user_id msg.rule_id) _
        (find_rule-Found msg.user_id before msg.rule_id) fire_rule-Keeps

-- Whatever calls fail and however actions interleave, an escalation leaves the rows of all users
-- but the one that it names (Confined) as they were, where the keys of that user's monitors, rules
-- and channels are unique in their tables.
pub process_one-Confined :
    (h : Host) (payload : List ℕ) (msg : EscalationMessage) (w : World)
    → h.decode_escalation payload ≡ some msg
    → HasKeys msg.user_id w.db
    → Confined msg.user_id w.db (run (process_one h payload) w).1.db
unfolding process_one
process_one-Confined h payload msg w d keys = rw d (
    (Keeps-run (process_message-Keeps msg w.db keys h) w
      (record { on_db = Confined-refl msg.user_id w.db })).on_db)
