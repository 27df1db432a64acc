-- ===== src/Rules/Actions.antt =====
-- rules/actions.rs: one action of a rule. The chain that a state change sets off is an argument,
-- `trigger_for_monitor_with_depth` on the same in-flight set (Rules/Exec.antt).
pub mod Isolation
pub mod Release
use myccmonitor.Prelude.{
  ℕ, zero, suc, ◌+◌, ◌*◌, ◌/◌, String, Bool, true, false, not, Option, none, some, List, [], ◌∷◌,
  if◌then◌else◌, ◌==◌, leb, contains, filter,
}
use myccmonitor.Json.{Uuid, Instant}
use myccmonitor.Error.{Error, Result, ok, err}
use myccmonitor.Task.{◌>>=◌, ◌>>◌, pure, throw, attempt}
use myccmonitor.World.{Async, query, select, utc_now, guarded}
use myccmonitor.Host.{Host}
use myccmonitor.Store.Rows.{Monitor, Rule}
use myccmonitor.Store.Tables.{
  Db, Summary, target_missing, anti_loop, rule_disappeared, state_set, delivered, not_delivered,
  escalated, WsFrame, monitor_state, BroadcastPayload, EscalationMessage,
}
use myccmonitor.Store.Monitors.{
  find_by_id_for_user, set_state_if_changed, set_acknowledged, insert_history,
}
use myccmonitor.Store.Rules.{find_rule}
use myccmonitor.Rules.Condition.{Action, set_monitor_state, send_notification, escalate}
use myccmonitor.Rules.Trigger.{Trigger, rule_chain}
use myccmonitor.Notifications.Dispatch.{dispatch}

abbrev pub max_chain_depth : ℕ
max_chain_depth = 8

-- User, monitor, trigger and depth; the number of rules that fired.
abbrev pub Chain : Type 0
Chain = Uuid → Uuid → Trigger → ℕ → Async ℕ

-- `in_flight.contains(id)`, and where it does not, `in_flight.insert(id)`: no await in between.
abbrev pub enter_set : Uuid → List Uuid → Bool × List Uuid
enter_set id s = if contains s id then (false, s) else (true, id ∷ s)

unfoldable pub enter : Uuid → Async Bool
enter id = guarded (enter_set id)

-- `in_flight.remove(id)`
abbrev pub leave_set : Uuid → List Uuid → Unit {0} × List Uuid
leave_set id s = (tt, filter (λ j. not (j == id)) s)

unfoldable pub leave : Uuid → Async (Unit {0})
leave id = guarded (leave_set id)

-- ws/mod.rs, `broadcast_via_pg`
unfoldable pub push_broadcast : String → WsFrame → Db → Db
push_broadcast cc_org_id frame db = record db {
  broadcasts = record { cc_org_id = cc_org_id; frame = frame } ∷ db.broadcasts;
}

unfoldable pub broadcast_via_pg : String → WsFrame → Async (Unit {0})
unfolding push_broadcast
broadcast_via_pg cc_org_id frame = query (λ now fresh db. (tt, push_broadcast cc_org_id frame db))

abbrev pub or_else : Option String → Option String → Option String
or_else none t = t
or_else (some s) t = some s

-- `if let Some(ack) = acknowledged`
unfoldable pub acknowledge : Uuid → Option Bool → Async (Unit {0})
acknowledge id none = pure tt
acknowledge id (some ack) = query (λ now fresh db. (tt, set_acknowledged id ack now db))

-- `if let Some(org) = target_org_id`, with `let _ =` on the result.
unfoldable pub announce : Option String → Uuid → String → Option String → Instant → Async (Unit {0})
announce none id state message since = pure tt
announce (some org) id state message since = do
  attempt (broadcast_via_pg org (monitor_state id state message (some since)))
  pure tt

-- bus/escalations.rs, `schedule`: milliseconds since the epoch.
unfoldable pub push_escalation : Uuid → Uuid → Uuid → ℕ → Instant → Db → Db
push_escalation user_id rule_id from_rule_id delay_seconds now db = record db {
  escalations =
      record {
        user_id = user_id;
        rule_id = rule_id;
        from_rule_id = from_rule_id;
        scheduled_at_ms = now / 1000;
        scheduled_for_ms = now / 1000 + delay_seconds * 1000;
      }
      ∷ db.escalations;
}

unfoldable pub schedule : Uuid → Uuid → Uuid → ℕ → Async (Unit {0})
schedule user_id rule_id from_rule_id delay_seconds =
    query (λ now fresh db. (tt, push_escalation user_id rule_id from_rule_id delay_seconds now db))

-- `match result { Ok(id) => …, Err(e) => … }` after a dispatch.
abbrev pub dispatch_summary : Uuid → Result Uuid → Summary
dispatch_summary channel_id (ok alert_id) = delivered alert_id channel_id
dispatch_summary channel_id (err e) = not_delivered channel_id e

module _ (h : Host) (chain : Chain) (rule_id user_id : Uuid) (chain_depth : ℕ) where
  -- `if chain_depth + 1 >= MAX_CHAIN_DEPTH { … } else { match … }`
  unfoldable pub follow_chain : Uuid → Async (Result ℕ)
  follow_chain target =
      if leb max_chain_depth (chain_depth + 1)
      then pure (ok 0)
      else attempt (chain user_id target (rule_chain rule_id) (chain_depth + 1))

  -- `if let Some((effective_state, since)) = changed`: `chained_count` or `chain_err`.
  unfoldable pub react :
      Uuid
      → Monitor
      → Option String
      → Option String
      → Instant
      → Option (String × Instant)
      → Async (Result ℕ)
  unfolding follow_chain announce
  react target m message hint now none = pure (ok 0)
  react target m message hint now (some (effective_state, since)) = do
    query (λ _ fresh db. (tt, insert_history target effective_state message now "rule_action" db))
    announce (or_else m.cc_org_id hint) target effective_state message since
    follow_chain target

  abbrev pub close : Uuid → String → String → Result ℕ → Async Summary
  close target before new_state (err e) = throw e
  close target before new_state (ok count) = pure (state_set target before new_state count)

  -- Between `in_flight.insert` and `in_flight.remove`.
  unfoldable pub change_state :
      Uuid → String → Option String → Option Bool → Option String → Monitor → Async (Result ℕ)
  unfolding react acknowledge
  change_state target new_state message ack hint m = do
    now ← utc_now
    changed ← query (λ now' fresh db. set_state_if_changed target new_state message now' db)
    acknowledge target ack
    react target m message hint now changed

  unfoldable pub set_state_inside :
      Uuid → String → Option String → Option Bool → Option String → Monitor → Async Summary
  unfolding change_state leave
  set_state_inside target new_state message ack hint m = do
    r ← change_state target new_state message ack hint m
    leave target
    close target m.current_state new_state r

  unfoldable pub set_state_of :
      Uuid → String → Option String → Option Bool → Option String → Option Monitor → Async Summary
  unfolding set_state_inside enter
  set_state_of target new_state message ack hint none = pure target_missing
  set_state_of target new_state message ack hint (some m) = do
    entered ← enter target
    if entered then set_state_inside target new_state message ack hint m else pure anti_loop

  unfoldable pub notify : Uuid → String → Option String → Option Rule → Async Summary
  notify channel_id message subject none = pure rule_disappeared
  notify channel_id message subject (some rule) = do
    r ← attempt (dispatch h channel_id rule user_id "rule_action" none message subject)
    pure (dispatch_summary channel_id r)

  unfoldable pub execute : Action → Option String → Async Summary
  unfolding set_state_of notify schedule
  execute (set_monitor_state target new_state message ack) hint = do
    m ← select (find_by_id_for_user user_id target)
    set_state_of target new_state message ack hint m
  execute (send_notification channel_id message subject) hint = do
    rule ← select (find_rule user_id rule_id)
    notify channel_id message subject rule
  execute (escalate delay_seconds target_rule_id) hint = do
    schedule user_id target_rule_id rule_id delay_seconds
    pure (escalated target_rule_id delay_seconds)
