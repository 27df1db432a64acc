-- ===== src/Rules/Exec/Verdict.antt =====
-- rules/exec.rs, `execute_rule`: what it does without running any action.
use myccmonitor.Prelude.{
  ℕ, ◌≡◌, refl, sym, ◌∙◌, ap, String, Bool, true, false, none, some, List, Bool-cases, inl, inr,
}
use myccmonitor.Json.{Uuid}
use myccmonitor.Error.{Result, ok}
use myccmonitor.Task.{◌>>=◌, run}
use myccmonitor.Task.Invariant.{Keeps-run}
use myccmonitor.Task.Run.{run_laws}
use myccmonitor.World.{World, tick, now_of, is_down, run_query, query, utc_now}
use myccmonitor.Host.{Host}
use myccmonitor.Store.Rows.{Rule}
use myccmonitor.Store.Tables.{Db}
use myccmonitor.Store.Rules.{insert_firing, update_outcome}
use myccmonitor.Rules.Condition.{Condition, Action}
use myccmonitor.Rules.Trigger.{Trigger, kind, ref_id, not_matched, cooldown_skipped}
use myccmonitor.Rules.Cooldown.{skip, cooldown_decision}
use myccmonitor.Rules.Fetch.{Cache}
use myccmonitor.Rules.Evaluator.Evaluate.{evaluate}
use myccmonitor.Rules.Evaluator.Evaluate.Reads.{evaluate-Reads}
use myccmonitor.Rules.Actions.{Chain}
use myccmonitor.Rules.Exec.{
  decoded, record_firing, record_outcome, is_cooling_down, is_not_matched, report_skip,
  report_no_match, conclude, execute_rule,
}

module _ (h : Host) (chain : Chain) (rule : Rule) (trigger : Trigger) (depth : ℕ) where
  -- A disabled rule is not evaluated: no call is made.
  execute_rule_disabled :
      (w : World)
      → rule.is_enabled ≡ false
      → run (execute_rule h chain rule trigger depth) w ≡ (ok not_matched, w)
  unfolding execute_rule
  execute_rule_disabled w e = simp (run_laws, e)

  -- The rule is enabled and its columns decode.
  pub record IsReady (condition : Condition) (actions : List Action) : Type 0 where
    pub enabled : rule.is_enabled ≡ true
    pub has_condition : h.decode_condition rule.condition ≡ some condition
    pub has_actions : h.decode_actions rule.actions ≡ some actions

  module _ {condition : Condition} {actions : List Action} (ready : IsReady condition actions)
      (w w' : World) where
    execute_rule_evaluated :
        (matches : Bool) (cache : Cache)
        → run (evaluate h rule.user_id none condition) w ≡ (ok (matches, cache), w')
        → run (execute_rule h chain rule trigger depth) w
          ≡ run
              (is_cooling_down rule matches >>= λ cooling.
                conclude h chain rule trigger depth actions matches cooling)
              w'
    unfolding execute_rule decoded
    execute_rule_evaluated matches cache e =
        simp (run_laws, ready.enabled, ready.has_condition, ready.has_actions, e)

    evaluated_db :
        (r : Result (Bool × Cache))
        → run (evaluate h rule.user_id none condition) w ≡ (r, w')
        → w'.db ≡ w.db
    evaluated_db r e =
        sym (ap (λ p. p.1.db) e)
        ∙ (Keeps-run (evaluate-Reads (λ db. db ≡ w.db) h rule.user_id none condition) w
            (record { on_db = refl })).on_db

    abbrev pub firing_of : String → ℕ → Uuid → Db → Db
    firing_of outcome now fresh db =
        insert_firing rule.id rule.user_id (kind trigger) (ref_id trigger) outcome none none now
          fresh db

    -- A rule that matches within its cooldown, after a match, makes one more call and runs no
    -- action: the call records a firing of outcome `cooldown_skipped`, in a database that the
    -- evaluation left as it was. The last firing and the last outcome of the rule stay, so that
    -- the cooldown runs from the firing and not from the skip.
    pub execute_rule_cools_down :
        (cache : Cache)
        → run (evaluate h rule.user_id none condition) w ≡ (ok (true, cache), w')
        → cooldown_decision rule.last_fired_at rule.last_outcome_state rule.cooldown_seconds
            (now_of w')
          ≡ skip
        → (run (execute_rule h chain rule trigger depth) w
            ≡ run_query
                (λ now fresh db. (cooldown_skipped, firing_of "cooldown_skipped" now fresh db))
                (tick w'))
          × (w'.db ≡ w.db)
    unfolding is_cooling_down utc_now conclude report_skip record_firing query
    execute_rule_cools_down cache e cooling = (
      execute_rule_evaluated true cache e ∙ elim (Bool-cases (is_down (tick w'))) [
        | inl down ↦ simp (run_laws, cooling, down)
        | inr up ↦ simp (run_laws, cooling, up)
      ],
      evaluated_db _ e,
    )

    -- A rule that does not match, and did not the last time, makes no call after its evaluation
    -- and changes nothing.
    pub execute_rule_stays_quiet :
        (cache : Cache)
        → run (evaluate h rule.user_id none condition) w ≡ (ok (false, cache), w')
        → rule.last_outcome_state ≡ some "not_matched"
        → (run (execute_rule h chain rule trigger depth) w ≡ (ok not_matched, w')) × (w'.db ≡ w.db)
    unfolding is_cooling_down conclude report_no_match
    execute_rule_stays_quiet cache e last =
        (execute_rule_evaluated false cache e ∙ simp (run_laws, last), evaluated_db _ e)

    -- A rule that does not match for the first time records it, once as a firing and once as its
    -- last outcome, without a change to the time of its last firing.
    pub execute_rule_turns_quiet :
        (cache : Cache)
        → run (evaluate h rule.user_id none condition) w ≡ (ok (false, cache), w')
        → is_not_matched rule.last_outcome_state ≡ false
        → is_down w' ≡ false
        → is_down (tick w') ≡ false
        → let after = run (execute_rule h chain rule trigger depth) w in
          (after.0 ≡ ok not_matched)
          × (after.1.db
              ≡ update_outcome rule.id "not_matched" false
                  (now_of (tick w'))
                  (firing_of "not_matched" (now_of w') (w'.oracle.fresh w'.ticks) w.db))
    unfolding is_cooling_down conclude report_no_match record_firing record_outcome query
    execute_rule_turns_quiet cache e last up up' =
        simp (execute_rule_evaluated false cache e, run_laws, last, up, up', sym (evaluated_db _ e))
          (refl, refl)
