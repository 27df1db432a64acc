-- ===== src/Rules/Exec.antt =====
-- rules/exec.rs: `execute_rule` and `trigger_for_monitor`. The recursion through the actions is on
-- fuel; eight units are enough, since a chain is cut at depth eight (Exec/Depth.antt).
pub mod Depth
pub mod Isolation
pub mod Verdict
use Prim.Native.String.{◌++◌ as str_append}
use myccmonitor.Prelude.{
  ℕ, zero, suc, ◌+◌, ◌%◌, String, Bool, true, false, not, ◌&&◌, Option, none, some, List, [], ◌∷◌,
  ◌++◌, if◌then◌else◌, ◌==◌, str_eq, map,
}
use myccmonitor.Prelude.Int.{ℤ}
use myccmonitor.Json.{Uuid, Instant}
use myccmonitor.Error.{Error, decode, out_of_fuel, Result, ok, err}
use myccmonitor.Task.{◌>>=◌, ◌>>◌, pure, throw, attempt, join_all}
use myccmonitor.World.{Async, pick, query, select, utc_now, guarded}
use myccmonitor.Host.{Host}
use myccmonitor.Store.Rows.{Rule}
use myccmonitor.Store.Tables.{Db, Summary, WsFrame, rule_firing}
use myccmonitor.Store.Rules.{
  find_rule, update_outcome, direct_rule_ids, group_rule_ids, insert_firing,
}
use myccmonitor.Groups.Rollup.{sort, succ32}
use myccmonitor.Rules.Condition.{Condition, Action}
use myccmonitor.Rules.Trigger.{
  Trigger, kind, ref_id, Outcome, matched, not_matched, cooldown_skipped, error,
}
use myccmonitor.Rules.Cooldown.{is_skip, cooldown_decision}
use myccmonitor.Rules.Evaluator.Evaluate.{evaluate}
use myccmonitor.Rules.Actions.{Chain, execute, broadcast_via_pg}

unfoldable pub decoded : {A : Type 0} → Option A → Async A
decoded none = throw decode
decoded (some a) = pure a

-- `Vec::dedup`
unfoldable pub dedup_from : Uuid → List Uuid → List Uuid
dedup_from i [] = i ∷ []
dedup_from i (j ∷ js) = let rest = dedup_from j js in if i == j then rest else i ∷ rest

unfoldable pub dedup : List Uuid → List Uuid
unfolding dedup_from
dedup [] = []
dedup (i ∷ is) = dedup_from i is

-- The loop over `results`: the summaries, and the texts of the errors.
unfoldable pub fold_results : (Error → String) → List (Result Summary) → List Summary × List String
fold_results show [] = ([], [])
fold_results show (ok s ∷ rs) = let (ss, es) = fold_results show rs in (s ∷ ss, es)
fold_results show (err e ∷ rs) = let (ss, es) = fold_results show rs in (ss, show e ∷ es)

-- `error_messages.join("; ")`
unfoldable pub join_from : String → List String → String
join_from s [] = s
join_from s (t ∷ ts) = str_append s (str_append "; " (join_from t ts))

abbrev pub error_text : List String → Option String
error_text [] = none
error_text (s ∷ ss) = some (join_from s ss)

abbrev pub had_error : List String → Bool
had_error [] = false
had_error (s ∷ ss) = true

abbrev pub outcome_text : Bool → String
outcome_text true = "error"
outcome_text false = "matched"

abbrev pub outcome_of : Bool → Outcome
outcome_of true = error
outcome_of false = matched

abbrev pub is_not_matched : Option String → Bool
is_not_matched none = false
is_not_matched (some s) = str_eq s "not_matched"

unfoldable pub record_firing :
    Rule → Trigger → String → Option (List Summary) → Option String → Async (Unit {0})
unfolding kind ref_id insert_firing
record_firing rule trigger outcome executed message = query (λ now fresh db. (
  tt,
  insert_firing rule.id rule.user_id (kind trigger) (ref_id trigger) outcome executed message now
      fresh db,
))

unfoldable pub record_outcome : Rule → String → Bool → Async (Unit {0})
record_outcome rule outcome fired =
    query (λ now fresh db. (tt, update_outcome rule.id outcome fired now db))

-- `if matched && cooldown_decision(…) == Skip`: the clock is read only where the rule matches.
unfoldable pub is_cooling_down : Rule → Bool → Async Bool
is_cooling_down rule false = pure false
is_cooling_down rule true = do
  now ← utc_now
  pure (
      is_skip
        (cooldown_decision rule.last_fired_at rule.last_outcome_state rule.cooldown_seconds now))

unfoldable pub report_skip : Rule → Trigger → Async Outcome
report_skip rule trigger = do
  record_firing rule trigger "cooldown_skipped" none none
  pure cooldown_skipped

unfoldable pub report_no_match : Rule → Trigger → Async Outcome
report_no_match rule trigger =
    if is_not_matched rule.last_outcome_state then pure not_matched else (do
      record_firing rule trigger "not_matched" none none
      record_outcome rule "not_matched" false
      pure not_matched)

unfoldable pub report_actions : Rule → Trigger → List Summary × List String → Async Outcome
report_actions rule trigger (summaries, errors) = do
  record_firing rule trigger (outcome_text (had_error errors)) (some summaries) (error_text errors)
  record_outcome rule "matched" true
  now ← utc_now
  attempt (
      broadcast_via_pg "__system__" (
        rule_firing rule.id rule.name (outcome_text (had_error errors)) now (kind trigger)
          (ref_id trigger)))
  pure (outcome_of (had_error errors))

module _ (h : Host) where
  module _ (chain : Chain) where
    unfoldable pub run_actions : Rule → Trigger → ℕ → List Action → Async Outcome
    unfolding report_actions fold_results
    run_actions rule trigger chain_depth actions = do
      results ←
          join_all pick (map (λ a. execute h chain rule.id rule.user_id chain_depth a none) actions)
      report_actions rule trigger (fold_results h.show_error results)

    unfoldable pub conclude : Rule → Trigger → ℕ → List Action → Bool → Bool → Async Outcome
    unfolding report_skip report_no_match run_actions
    conclude rule trigger chain_depth actions matches cooling =
        if cooling
        then report_skip rule trigger
        else if not matches
        then report_no_match rule trigger
        else run_actions rule trigger chain_depth actions

    unfoldable pub execute_rule : Rule → Trigger → ℕ → Async Outcome
    unfolding decoded is_cooling_down conclude
    execute_rule rule trigger chain_depth = if not rule.is_enabled then pure not_matched else (do
      condition ← decoded (h.decode_condition rule.condition)
      actions ← decoded (h.decode_actions rule.actions)
      (matches, cache) ← evaluate h rule.user_id none condition
      cooling ← is_cooling_down rule matches
      conclude rule trigger chain_depth actions matches cooling)

    abbrev pub count_fired : Outcome → ℕ → ℕ
    count_fired matched fired = succ32 fired
    count_fired _ fired = fired

    unfoldable pub execute_found : Trigger → ℕ → ℕ → Option Rule → Async ℕ
    execute_found trigger chain_depth fired none = pure fired
    execute_found trigger chain_depth fired (some rule) = do
      outcome ← execute_rule rule trigger chain_depth
      pure (count_fired outcome fired)

    -- The loop over the dependent rules.
    unfoldable pub execute_all : Uuid → Trigger → ℕ → List Uuid → ℕ → Async ℕ
    unfolding execute_found
    execute_all user_id trigger chain_depth [] fired = pure fired
    execute_all user_id trigger chain_depth (rule_id ∷ rest) fired = do
      rule ← select (find_rule user_id rule_id)
      fired' ← execute_found trigger chain_depth fired rule
      execute_all user_id trigger chain_depth rest fired'

    unfoldable pub trigger_once : Uuid → Uuid → Trigger → ℕ → Async ℕ
    unfolding dedup execute_all
    trigger_once user_id monitor_id trigger chain_depth = do
      direct ← select (direct_rule_ids user_id monitor_id)
      group ← select (group_rule_ids user_id monitor_id)
      execute_all user_id trigger chain_depth (dedup (sort (direct ++ group))) 0

  unfoldable pub trigger_with_depth : ℕ → Chain
  unfolding trigger_once
  trigger_with_depth zero user_id monitor_id trigger chain_depth = throw out_of_fuel
  trigger_with_depth (suc fuel) user_id monitor_id trigger chain_depth =
      trigger_once (trigger_with_depth fuel) user_id monitor_id trigger chain_depth

  -- `trigger_for_monitor`: a new in-flight set, depth 0.
  unfoldable pub trigger_for_monitor : Uuid → Uuid → Trigger → Async ℕ
  unfolding trigger_with_depth
  trigger_for_monitor user_id monitor_id trigger = do
    guarded (λ s. (tt, []))
    trigger_with_depth 8 user_id monitor_id trigger 0
