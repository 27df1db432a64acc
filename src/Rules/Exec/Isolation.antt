-- ===== src/Rules/Exec/Isolation.antt =====
-- rules/exec.rs: evaluating and firing a user's rules stays within that user's rows.
use myccmonitor.Prelude.{
  ℕ, zero, suc, String, Bool, true, false, not, Option, none, some, List, [], ◌∷◌, All, map, subst,
  sym,
}
use myccmonitor.Json.{Uuid}
use myccmonitor.Task.{Task, run}
use myccmonitor.Task.Invariant.{
  Keeps, Keeps-bind, Keeps-then, Keeps-pure, Keeps-throw, Keeps-attempt, Keeps-if, Keeps-join_all,
  Keeps-run,
}
use myccmonitor.World.{World, pick}
use myccmonitor.World.Laws.{
  OnDb, Keeps-query, Keeps-select, Keeps-select_bind, Keeps-utc_now, Keeps-guarded, pick_keeps,
}
use myccmonitor.Host.{Host}
use myccmonitor.Store.Rows.{Rule}
use myccmonitor.Store.Tables.{Db, Summary}
use myccmonitor.Store.Rules.{find_rule, insert_firing}
use myccmonitor.Store.Confined.{Confined, Confined-refl, HasKeys}
use myccmonitor.Store.Confined.Writes.{insert_firing-Confined, update_outcome-Confined}
use myccmonitor.Store.Confined.Lookups.{FoundRule, find_rule-Found}
use myccmonitor.Rules.Condition.{Action}
use myccmonitor.Rules.Evaluator.Evaluate.Reads.{evaluate-Reads}
use myccmonitor.Rules.Trigger.{Trigger, kind, ref_id}
use myccmonitor.Rules.Actions.{Chain, execute}
use myccmonitor.Rules.Actions.Isolation.{broadcast_keeps, execute_keeps}
use myccmonitor.Rules.Exec.{
  decoded, fold_results, record_firing, record_outcome, is_cooling_down, report_skip,
  is_not_matched, report_no_match, report_actions, run_actions, conclude, execute_rule,
  execute_found, execute_all, trigger_once, trigger_with_depth, trigger_for_monitor,
}

module _ (u : Uuid) (before : Db) (keys : HasKeys u before) where
  abbrev IsKept : {A : Type 0} → Task World A → Type 0
  IsKept t = Keeps (OnDb (Confined u before)) t

  decoded_keeps : {A : Type 0} (o : Option A) → IsKept (decoded o)
  unfolding decoded
  decoded_keeps none = Keeps-throw _
  decoded_keeps (some a) = Keeps-pure a

  module _ (rule : Rule) (own : FoundRule u before (some rule)) where
    record_firing_keeps :
        (trigger : Trigger) (outcome : String) (executed : Option (List Summary))
        (message : Option String)
        → IsKept (record_firing rule trigger outcome executed message)
    unfolding record_firing
    record_firing_keeps trigger outcome executed message = Keeps-query _ (λ now fresh db p.
        subst
          (λ v. Confined u before (
            insert_firing rule.id v (kind trigger) (ref_id trigger) outcome executed message now
              fresh db))
          (sym own.1)
          (insert_firing-Confined u before keys rule.id (kind trigger) (ref_id trigger) outcome
            executed message now fresh db p))

    record_outcome_keeps :
        (outcome : String) (fired : Bool) → IsKept (record_outcome rule outcome fired)
    unfolding record_outcome
    record_outcome_keeps outcome fired = Keeps-query _ (λ now fresh db p.
        update_outcome-Confined u before keys rule.id outcome fired now db own.0 p)

    report_skip_keeps : (trigger : Trigger) → IsKept (report_skip rule trigger)
    unfolding report_skip
    report_skip_keeps trigger = Keeps-then (record_firing_keeps trigger _ none none) (Keeps-pure _)

    report_no_match_keeps : (trigger : Trigger) → IsKept (report_no_match rule trigger)
    unfolding report_no_match
    report_no_match_keeps trigger =
        Keeps-if (is_not_matched rule.last_outcome_state) (λ _. Keeps-pure _)
          (λ _.
            Keeps-then (record_firing_keeps trigger _ none none)
              (Keeps-then (record_outcome_keeps _ false) (Keeps-pure _)))

    report_actions_keeps :
        (trigger : Trigger) (r : List Summary × List String)
        → IsKept (report_actions rule trigger r)
    unfolding report_actions
    report_actions_keeps trigger (summaries, errors) =
        Keeps-then (record_firing_keeps trigger _ _ _) (
          Keeps-then (record_outcome_keeps _ true) (
            Keeps-bind _ Keeps-utc_now (λ now.
              Keeps-then (Keeps-attempt (broadcast_keeps u before keys _ _)) (Keeps-pure _))))

    is_cooling_down_keeps : (matches : Bool) → IsKept (is_cooling_down rule matches)
    unfolding is_cooling_down
    is_cooling_down_keeps false = Keeps-pure _
    is_cooling_down_keeps true = Keeps-bind _ Keeps-utc_now (λ now. Keeps-pure _)

    module _ (h : Host) (chain : Chain)
        (chain_keeps : (m : Uuid) (t : Trigger) (d : ℕ) → IsKept (chain u m t d)) (depth : ℕ) where
      actions_keep :
          (actions : List Action)
          → All
              (Keeps (OnDb (Confined u before)))
              (map (λ a. execute h chain rule.id rule.user_id depth a none) actions)
      actions_keep [] = tt
      actions_keep (a ∷ rest) = (
        subst (λ v. IsKept (execute h chain rule.id v depth a none)) (sym own.1)
            (execute_keeps u before keys h chain chain_keeps rule.id depth a none),
        actions_keep rest,
      )

      run_actions_keeps :
          (trigger : Trigger) (actions : List Action)
          → IsKept (run_actions h chain rule trigger depth actions)
      unfolding run_actions
      run_actions_keeps trigger actions =
          Keeps-bind _ (Keeps-join_all pick pick_keeps _ (actions_keep actions))
            (λ results. report_actions_keeps trigger (fold_results h.show_error results))

      conclude_keeps :
          (trigger : Trigger) (actions : List Action) (matches cooling : Bool)
          → IsKept (conclude h chain rule trigger depth actions matches cooling)
      unfolding conclude
      conclude_keeps trigger actions matches cooling =
          Keeps-if cooling (λ _. report_skip_keeps trigger)
            (λ _.
              Keeps-if (not matches) (λ _. report_no_match_keeps trigger)
                (λ _. run_actions_keeps trigger actions))

      pub execute_rule_keeps :
          (trigger : Trigger) → IsKept (execute_rule h chain rule trigger depth)
      unfolding execute_rule
      execute_rule_keeps trigger =
          Keeps-if (not rule.is_enabled) (λ _. Keeps-pure _)
            (λ _. Keeps-bind _ (decoded_keeps (h.decode_condition rule.condition)) (λ condition.
              Keeps-bind _ (decoded_keeps (h.decode_actions rule.actions)) (λ actions.
                Keeps-bind _ (evaluate-Reads (Confined u before) h rule.user_id none condition)
                  (λ a.
                    Keeps-bind _ (is_cooling_down_keeps a.0)
                      (λ cooling. conclude_keeps trigger actions a.0 cooling)))))

  module _ (h : Host) where
    module _ (chain : Chain)
        (chain_keeps : (m : Uuid) (t : Trigger) (d : ℕ) → IsKept (chain u m t d))
        (trigger : Trigger) (depth : ℕ) where
      execute_found_keeps :
          (fired : ℕ) (o : Option Rule)
          → FoundRule u before o
          → IsKept (execute_found h chain trigger depth fired o)
      unfolding execute_found
      execute_found_keeps fired none own = Keeps-pure _
      execute_found_keeps fired (some rule) own =
          Keeps-bind _ (execute_rule_keeps rule own h chain chain_keeps depth trigger)
            (λ outcome. Keeps-pure _)

      execute_all_keeps :
          (ids : List Uuid) (fired : ℕ) → IsKept (execute_all h chain u trigger depth ids fired)
      unfolding execute_all
      execute_all_keeps [] fired = Keeps-pure _
      execute_all_keeps (i ∷ rest) fired =
          Keeps-select_bind (FoundRule u before) (find_rule u i) _ (find_rule-Found u before i)
            (λ o own.
              Keeps-bind _ (execute_found_keeps fired o own)
                (λ fired'. execute_all_keeps rest fired'))

      trigger_once_keeps : (m : Uuid) → IsKept (trigger_once h chain u m trigger depth)
      unfolding trigger_once
      trigger_once_keeps m =
          Keeps-bind _ (Keeps-select _)
            (λ direct. Keeps-bind _ (Keeps-select _) (λ group. execute_all_keeps _ 0))

    pub trigger_with_depth_keeps :
        (fuel : ℕ) (m : Uuid) (t : Trigger) (d : ℕ) → IsKept (trigger_with_depth h fuel u m t d)
    unfolding trigger_with_depth
    trigger_with_depth_keeps zero m t d = Keeps-throw _
    trigger_with_depth_keeps (suc fuel) m t d =
        trigger_once_keeps (trigger_with_depth h fuel) (trigger_with_depth_keeps fuel) t d m

    pub trigger_for_monitor_keeps : (m : Uuid) (t : Trigger) → IsKept (trigger_for_monitor h u m t)
    unfolding trigger_for_monitor
    trigger_for_monitor_keeps m t = Keeps-then (Keeps-guarded _) (trigger_with_depth_keeps 8 m t 0)

-- Whatever calls fail, whatever the clock says and however the actions of a rule interleave,
-- evaluating the rules of a user against a monitor, with every action and every chained rule,
-- leaves the monitors, histories, rules, firings, channels, escalations and alerts (but for the
-- time of their delivery) of all other users, and the tables that rules only read, as they were:
-- where the keys of the user's monitors, rules and channels are unique in their tables.
pub trigger_for_monitor_isolated :
    (h : Host) (u m : Uuid) (t : Trigger) (w : World)
    → HasKeys u w.db
    → Confined u w.db (run (trigger_for_monitor h u m t) w).1.db
trigger_for_monitor_isolated h u m t w keys =
    (Keeps-run (trigger_for_monitor_keeps u w.db keys h m t) w
      (record { on_db = Confined-refl u w.db })).on_db
