-- ===== src/Rules/Actions/Isolation.antt =====
-- rules/actions.rs: an action of a user's rule stays within that user's rows (Store/Confined).
use myccmonitor.Prelude.{ℕ, ◌+◌, String, Bool, Option, none, some, leb}
use myccmonitor.Json.{Uuid, Instant}
use myccmonitor.Error.{Result, ok, err}
use myccmonitor.Task.{Task}
use myccmonitor.Task.Invariant.{
  Keeps, Keeps-bind, Keeps-then, Keeps-pure, Keeps-throw, Keeps-attempt, Keeps-if,
}
use myccmonitor.World.{World}
use myccmonitor.World.Laws.{OnDb, Keeps-query, Keeps-select_bind, Keeps-utc_now, Keeps-guarded}
use myccmonitor.Host.{Host}
use myccmonitor.Store.Rows.{Monitor, Rule}
use myccmonitor.Store.Tables.{Db, WsFrame}
use myccmonitor.Store.Monitors.{find_by_id_for_user}
use myccmonitor.Store.Rules.{find_rule}
use myccmonitor.Store.Confined.{Confined, HasKeys, OwnsMonitor}
use myccmonitor.Store.Confined.Writes.{
  set_state-Confined, set_acknowledged-Confined, insert_history-Confined, push_broadcast-Confined,
  push_escalation-Confined,
}
use myccmonitor.Store.Confined.Lookups.{
  FoundMonitor, FoundRule, find_monitor-Found, find_rule-Found,
}
use myccmonitor.Rules.Condition.{Action, set_monitor_state, send_notification, escalate}
use myccmonitor.Rules.Trigger.{Trigger}
use myccmonitor.Notifications.Dispatch.Isolation.{dispatch_keeps}
use myccmonitor.Rules.Actions.{
  max_chain_depth, Chain, enter, leave, broadcast_via_pg, acknowledge, announce, schedule,
  follow_chain, react, close, change_state, set_state_inside, set_state_of, notify, execute,
}

module _ (u : Uuid) (before : Db) (keys : HasKeys u before) where
  abbrev IsKept : {A : Type 0} → Task World A → Type 0
  IsKept t = Keeps (OnDb (Confined u before)) t

  pub broadcast_keeps : (org : String) (frame : WsFrame) → IsKept (broadcast_via_pg org frame)
  unfolding broadcast_via_pg
  broadcast_keeps org frame =
      Keeps-query _ (λ now fresh db p. push_broadcast-Confined u before keys org frame db p)

  acknowledge_keeps :
      (target : Uuid) (ack : Option Bool)
      → OwnsMonitor u before target
      → IsKept (acknowledge target ack)
  unfolding acknowledge
  acknowledge_keeps target none own = Keeps-pure tt
  acknowledge_keeps target (some ack) own =
      Keeps-query _
        (λ now fresh db p. set_acknowledged-Confined u before keys target ack now db own p)

  announce_keeps :
      (org : Option String) (target : Uuid) (s : String) (message : Option String) (since : Instant)
      → IsKept (announce org target s message since)
  unfolding announce
  announce_keeps none target s message since = Keeps-pure tt
  announce_keeps (some org) target s message since =
      Keeps-then (Keeps-attempt (broadcast_keeps org _)) (Keeps-pure tt)

  module _ (h : Host) (chain : Chain)
      (chain_keeps : (m : Uuid) (t : Trigger) (d : ℕ) → IsKept (chain u m t d)) (rule_id : Uuid)
      (depth : ℕ) where
    follow_chain_keeps : (target : Uuid) → IsKept (follow_chain h chain rule_id u depth target)
    unfolding follow_chain
    follow_chain_keeps target =
        Keeps-if (leb max_chain_depth (depth + 1)) (λ _. Keeps-pure (ok 0))
          (λ _. Keeps-attempt (chain_keeps target _ _))

    close_keeps :
        (target : Uuid) (s new_state : String) (r : Result ℕ)
        → IsKept (close h chain rule_id u depth target s new_state r)
    close_keeps target s new_state (ok count) = Keeps-pure _
    close_keeps target s new_state (err e) = Keeps-throw e

    module _ (target : Uuid) (own : OwnsMonitor u before target) (m : Monitor) where
      react_keeps :
          (message hint : Option String) (now : Instant) (changed : Option (String × Instant))
          → IsKept (react h chain rule_id u depth target m message hint now changed)
      unfolding react
      react_keeps message hint now none = Keeps-pure (ok 0)
      react_keeps message hint now (some (effective_state, since)) =
          Keeps-then
            (Keeps-query _ (λ _ fresh db p.
              insert_history-Confined u before keys target effective_state message now "rule_action"
                db own p))
            (Keeps-then (announce_keeps _ target effective_state message since)
              (follow_chain_keeps target))

      set_state_inside_keeps :
          (new_state : String) (message : Option String) (ack : Option Bool) (hint : Option String)
          → IsKept (set_state_inside h chain rule_id u depth target new_state message ack hint m)
      unfolding set_state_inside change_state leave
      set_state_inside_keeps new_state message ack hint =
          Keeps-bind _
            (Keeps-bind _ Keeps-utc_now (λ now.
              Keeps-bind _
                (Keeps-query _ (λ now' fresh db p.
                  set_state-Confined u before keys target new_state message now' db own p))
                (λ changed.
                  Keeps-then (acknowledge_keeps target ack own)
                    (react_keeps message hint now changed))))
            (λ r. Keeps-then (Keeps-guarded _) (close_keeps target m.current_state new_state r))

    set_state_of_keeps :
        (target : Uuid) (new_state : String) (message : Option String) (ack : Option Bool)
        (hint : Option String) (o : Option Monitor)
        → FoundMonitor u before o target
        → IsKept (set_state_of h chain rule_id u depth target new_state message ack hint o)
    unfolding set_state_of enter
    set_state_of_keeps target new_state message ack hint none own = Keeps-pure _
    set_state_of_keeps target new_state message ack hint (some m) own =
        Keeps-bind _ (Keeps-guarded _) (λ entered.
          Keeps-if entered (λ _. set_state_inside_keeps target own m new_state message ack hint)
            (λ _. Keeps-pure _))

    notify_keeps :
        (channel_id : Uuid) (message : String) (subject : Option String) (o : Option Rule)
        → IsKept (notify h chain rule_id u depth channel_id message subject o)
    unfolding notify
    notify_keeps channel_id message subject none = Keeps-pure _
    notify_keeps channel_id message subject (some rule) =
        Keeps-bind _
          (Keeps-attempt
            (dispatch_keeps u before keys h channel_id rule "rule_action" none message subject))
          (λ r. Keeps-pure _)

    -- Every step of an action of the user's rule stays within that user's rows, if the
    -- steps of the chain do.
    pub execute_keeps :
        (a : Action) (hint : Option String) → IsKept (execute h chain rule_id u depth a hint)
    unfolding execute schedule
    execute_keeps (set_monitor_state target new_state message ack) hint =
        Keeps-select_bind (λ o. FoundMonitor u before o target) (find_by_id_for_user u target) _
          (find_monitor-Found u before target)
          (λ o own. set_state_of_keeps target new_state message ack hint o own)
    execute_keeps (send_notification channel_id message subject) hint =
        Keeps-select_bind (FoundRule u before) (find_rule u rule_id) _
          (find_rule-Found u before rule_id) (λ o own. notify_keeps channel_id message subject o)
    execute_keeps (escalate delay_seconds target_rule_id) hint =
        Keeps-then
          (Keeps-query _ (λ now fresh db p.
            push_escalation-Confined u before keys target_rule_id rule_id delay_seconds now db p))
          (Keeps-pure _)
