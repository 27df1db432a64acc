-- ===== src/Examples/Rules.antt =====
-- Rules that run: rules/exec.rs, rules/actions.rs, rules/evaluator.rs and notifications/dispatch.rs.
use myccmonitor.Prelude.{
  ◌≡◌, ◌↔◌, refl, String, true, false, none, some, [], ◌∷◌, arith, if◌then◌else◌,
}
use myccmonitor.Prelude.Int.{pos}
use myccmonitor.Error.{unavailable, ok, err}
use myccmonitor.Task.{◌>>=◌, ◌>>◌, run}
use myccmonitor.World.{World, tick, run_query, guarded}
use myccmonitor.World.Steady.{IsSteady}
use myccmonitor.Store.Rows.{Rule}
use myccmonitor.Store.Confined.{Confined, HasKeys}
use myccmonitor.Rules.Trigger.{poll, cooldown_skipped}
use myccmonitor.Rules.Cooldown.{skip, cooldown_decision, FiredWithin, cooldown_decision-skip}
use myccmonitor.Rules.Exec.{trigger_for_monitor, trigger_with_depth}
use myccmonitor.Rules.Exec.Isolation.{trigger_for_monitor_isolated}
use myccmonitor.Rules.Exec.Depth.{unroll, trigger_for_monitor_depth}
use myccmonitor.Rules.Evaluator.Evaluate.{evaluate}
use myccmonitor.Task.{pure, atomic}
use myccmonitor.World.{select, query, utc_now}
use myccmonitor.Rules.Evaluator.Evaluate.{evaluate_field}
use myccmonitor.Rules.Field.{parse}
use myccmonitor.Rules.Fetch.{fetch}
use myccmonitor.Rules.Evaluator.Compare.{compare}
use myccmonitor.Store.Monitors.{find_by_id_for_user, set_state_if_changed}
use myccmonitor.Store.Rules.{insert_firing}
use myccmonitor.Store.Tables.{anti_loop}
use myccmonitor.Rules.Trigger.{kind, ref_id}
use myccmonitor.Rules.Cooldown.{fire, is_skip, compute_cooldown, compute_cooldown-decision}
use myccmonitor.Rules.Actions.{Chain, change_state, set_state_inside, set_state_of}
use myccmonitor.Rules.Actions.Release.{
  closing, set_state_inside_releases, set_state_of_refuses, set_state_of_leaks,
}
use myccmonitor.Rules.Exec.{execute_rule}
use myccmonitor.Rules.Exec.Verdict.{execute_rule_cools_down}
use myccmonitor.Notifications.Dispatch.{send_loop, finish_dispatch}
use myccmonitor.Notifications.Dispatch.Outcome.{
  all_down, with_delivery, HasAlert, send_loop_delivers, finish_dispatch_alert,
}
use myccmonitor.Prelude.{contains, ◌&&◌}
use myccmonitor.Examples.Fixture.{
  host, is_ok_condition, monitor_of, rule_of, channel, db_of, calm, failing_at, world_of,
}

abbrev pub fresh_rule : Rule
fresh_rule = rule_of none none

abbrev pub start : World
start = world_of (db_of "ok" fresh_rule) calm

pub keys_of : (s : String) (r : Rule) → r.user_id ≡ 100 → HasKeys 100 (db_of s r)
keys_of s r own = record {
  monitors = λ i e. ((λ k. refl), ((λ k. ground arith), tt));
  rules = λ i e. ((λ k. rw own refl), tt);
  channels = λ i e. ((λ k. refl), tt);
}

trigger_for_monitor_isolated_example :
    Confined 100 start.db (run (trigger_for_monitor host 100 1 (poll 1)) start).1.db
trigger_for_monitor_isolated_example =
    trigger_for_monitor_isolated host 100 1 (poll 1) start (keys_of "ok" fresh_rule refl)

trigger_for_monitor_depth_example :
    trigger_for_monitor host 100 1 (poll 1)
    ≡ guarded (λ s. (tt, [])) >> unroll host (trigger_with_depth host 0) 12 100 1 (poll 1) 0
trigger_for_monitor_depth_example =
    trigger_for_monitor_depth host (trigger_with_depth host 0) 12 100 1 (poll 1) (omega arith)

pub calm-IsSteady : IsSteady calm 400000000
calm-IsSteady = record { up = λ n. refl; still = λ n. refl }

-- The rule expects `ok` and finds `down`.
abbrev down_start : Rule → World
down_start rule = world_of (db_of "down" rule) calm

evaluate_ok :
    (rule : Rule)
    → run (evaluate host 100 none is_ok_condition) (world_of (db_of "ok" rule) calm)
      ≡ (ok (true, none), record (world_of (db_of "ok" rule) calm) { ticks = 2 })
unfolding run evaluate ◌>>=◌ evaluate_field parse fetch select atomic pure compare
    find_by_id_for_user
evaluate_ok rule = refl

evaluate_down :
    (rule : Rule)
    → run (evaluate host 100 none is_ok_condition) (down_start rule)
      ≡ (ok (false, none), record (down_start rule) { ticks = 1 })
unfolding run evaluate ◌>>=◌ evaluate_field parse fetch select atomic pure compare
    find_by_id_for_user
evaluate_down rule = refl

abbrev cooling_rule : Rule
cooling_rule = rule_of (some "matched") (some 200000000)

abbrev no_chain : Chain
no_chain = trigger_with_depth host 0

cooling_now : cooldown_decision (some 200000000) (some "matched") (pos 300) 400000000 ≡ skip
unfolding cooldown_decision
cooling_now = refl

unchanged :
    run (change_state host no_chain 7 100 0 1 "ok" none none none (monitor_of 1 100 "ok")) start
    ≡ (ok (ok 0), record start { ticks = 2 })
unfolding run change_state ◌>>=◌ utc_now atomic query ◌>>◌ pure set_state_if_changed
unchanged = refl

execute_rule_cools_down_example :
    (run
        (execute_rule host no_chain cooling_rule (poll 1) 0)
        (world_of (db_of "ok" cooling_rule) calm)
      ≡ run_query
          (λ now fresh db. (
            cooldown_skipped,
            insert_firing 7 100
                (kind (poll 1))
                (ref_id (poll 1))
                "cooldown_skipped"
                none
                none
                now
                fresh
                db,
          ))
          (tick (record (world_of (db_of "ok" cooling_rule) calm) { ticks = 2 })))
    × (db_of "ok" cooling_rule ≡ db_of "ok" cooling_rule)
execute_rule_cools_down_example =
    execute_rule_cools_down host no_chain cooling_rule (poll 1) 0
      (record { enabled = refl; has_condition = refl; has_actions = refl })
      (world_of (db_of "ok" cooling_rule) calm)
      (record (world_of (db_of "ok" cooling_rule) calm) { ticks = 2 }) none
      (evaluate_ok cooling_rule) cooling_now

cooldown_decision-skip_example :
    (cooldown_decision (some 200000000) (some "matched") (pos 300) 400000000 ≡ skip)
    ↔ FiredWithin (some 200000000) (some "matched") 300 400000000
cooldown_decision-skip_example =
    cooldown_decision-skip (some 200000000) (some "matched") 300 400000000 (omega arith)

compute_cooldown-decision_example :
    let state = compute_cooldown cooling_rule 400000000 true in
    (state.would_skip_due_to_cooldown
      ≡ (true && is_skip (cooldown_decision (some 200000000) (some "matched") (pos 300) 400000000)))
    × (state.remaining_seconds ≡ pos 0
        → cooldown_decision (some 200000000) (some "matched") (pos 300) 400000000 ≡ fire)
compute_cooldown-decision_example = compute_cooldown-decision cooling_rule 400000000 true

set_state_inside_releases_example :
    let after =
      run
        (set_state_inside host no_chain 7 100 0 1 "ok" none none none (monitor_of 1 100 "ok"))
        start in
    (after.0 ≡ closing 1 "ok" "ok" (ok 0))
    × ((contains after.1.in_flight 1 ≡ false) × (after.1.db ≡ db_of "ok" fresh_rule))
set_state_inside_releases_example =
    set_state_inside_releases host no_chain 7 100 0 1 "ok" none none none (monitor_of 1 100 "ok")
      start (record start { ticks = 2 }) (ok 0) unchanged

set_state_of_refuses_example :
    run
      (set_state_of host no_chain 7 100 0 1 "ok" none none none (some (monitor_of 1 100 "ok")))
      (record start { in_flight = 1 ∷ [] })
    ≡ (ok anti_loop, tick (record start { in_flight = 1 ∷ [] }))
set_state_of_refuses_example =
    set_state_of_refuses host no_chain 7 100 0 1 "ok" none none none (monitor_of 1 100 "ok")
      (record start { in_flight = 1 ∷ [] }) refl

abbrev failing : World
failing = world_of (db_of "ok" fresh_rule) (failing_at 2)

set_state_of_leaks_example :
    let after =
      run
        (set_state_of host no_chain 7 100 0 1 "down" none none none (some (monitor_of 1 100 "ok")))
        failing in
    (after.0 ≡ err unavailable)
    × ((after.1.in_flight ≡ 1 ∷ [])
        × ((run
              (set_state_of host no_chain 7 100 0 1 "down" none none none
                (some (monitor_of 1 100 "ok")))
              after.1).0
            ≡ ok anti_loop))
set_state_of_leaks_example =
    set_state_of_leaks host no_chain 7 100 0 1 "down" none none none (monitor_of 1 100 "ok") failing
      refl refl

send_loop_delivers_example :
    let after = run (send_loop 3 0 channel "subject" "body" unavailable) failing in
    (after.0 ≡ ok (if all_down failing then err unavailable else ok tt))
    × (after.1.db ≡ (
        if all_down failing then failing.db else with_delivery channel "subject" "body" failing.db))
send_loop_delivers_example = send_loop_delivers channel "subject" "body" unavailable failing

finish_dispatch_alert_example :
    let after =
      run
        (finish_dispatch host 100 fresh_rule none channel "subject" "body" "poll" (ok tt))
        start in
    (after.0 ≡ ok 1001) × HasAlert 1001 true after.1.db
finish_dispatch_alert_example =
    finish_dispatch_alert host 100 fresh_rule none channel "subject" "body" "poll" (ok tt) start
