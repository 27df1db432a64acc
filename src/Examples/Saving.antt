-- ===== src/Examples/Saving.antt =====
-- Saved rows: handlers/rules.rs, rules/debug.rs, db/rules.rs, db/monitors.rs and
-- db/metric_readings.rs.
use myccmonitor.Prelude.{◌≡◌, refl, true, not, none, some, [], ◌∷◌, arith, filter, count_by}
use myccmonitor.Prelude.Int.{pos}
use myccmonitor.Json.{Json}
use myccmonitor.Task.{run, pure, atomic, ◌>>◌}
use myccmonitor.World.{select}
use myccmonitor.Store.Rows.{Rule}
use myccmonitor.Store.Monitors.Cc.{MonitorInput, conflicts, upsert_cc}
use myccmonitor.Store.Monitors.Cc.Upsert.{KeepsStates, upsert_cc-OneRow, upsert_cc-KeepsStates}
use myccmonitor.Store.Rules.Save.{RuleColumns, save}
use myccmonitor.Store.Rules.Save.Versions.{AfterSave, save-Pruned}
use myccmonitor.Rules.Condition.{
  set_monitor_state, send_notification, validate_condition, validate_actions,
}
use myccmonitor.Rules.Dependencies.{extract}
use myccmonitor.Rules.Cycle.{check_no_cycle}
use myccmonitor.Rules.Field.{parse}
use myccmonitor.Groups.Rollup.{sort, insert_sorted}
use myccmonitor.Rules.Debug.{build}
use myccmonitor.Rules.Debug.Reads.{build_unchanged}
use myccmonitor.Handlers.Rules.{UpsertInput, save_inner, restore_version}
use myccmonitor.Handlers.Rules.Saved.{HasUniqueIds, SavedOr, save_inner-SavedOr}
use myccmonitor.Handlers.Rules.Requests.{
  HasNoLoop, RestoredOr, save_inner-HasNoLoop, restore_version-RestoredOr,
}
use myccmonitor.Examples.Fixture.{is_ok_condition, host}
use myccmonitor.Examples.Rules.{fresh_rule, start}
use myccmonitor.Examples.Cycles.{not_upward, not_upward-finds}

abbrev app_input : MonitorInput
app_input = record {
  cc_org_id = some "orga";
  kind = "cc_application";
  cc_resource_id = some "app_1";
  cc_metrics_id = some "app_1";
  display_name = "web";
  metadata = none;
  initial_state = "ok";
}

upsert_cc-OneRow_example :
    let after = (upsert_cc 100 app_input 5 1000 start.db).1.monitors in
    (count_by (conflicts 100 app_input) after ≡ 1)
    × (filter (λ m. not (conflicts 100 app_input m)) after
        ≡ filter (λ m. not (conflicts 100 app_input m)) start.db.monitors)
upsert_cc-OneRow_example =
    upsert_cc-OneRow 100 app_input 5 1000 "orga" "app_1" start.db refl refl (omega arith)

upsert_cc-KeepsStates_example :
    KeepsStates 100 app_input 5 1000 start.db.monitors
      (upsert_cc 100 app_input 5 1000 start.db).1.monitors
upsert_cc-KeepsStates_example = upsert_cc-KeepsStates 100 app_input 5 1000 start.db

abbrev columns : RuleColumns
columns = record {
  name = "down";
  is_enabled = true;
  condition = Json.null;
  actions = Json.null;
  cooldown_seconds = pos 300;
  metadata = none;
}

save-Pruned_example :
    let after = save (λ r. Json.null) (λ n. "v") 100 (some 7) columns [] none 5 1000 start.db in
    AfterSave start.db after.1 after.0
save-Pruned_example =
    save-Pruned (λ r. Json.null) (λ n. "v") 100 (some 7) columns [] none 5 1000 start.db
      (λ id name. omega arith)

abbrev input : UpsertInput
input = record {
  name = "down";
  is_enabled = true;
  condition = is_ok_condition;
  actions = set_monitor_state 1 "critical" none none ∷ send_notification 9 "" none ∷ [];
  cooldown_seconds = pos 300;
  metadata = none;
  comment = none;
}

unique : HasUniqueIds 100 start.db
unique = record {
  monitors = λ k. ground arith;
  rules = λ k. ground arith;
  channels = λ k. ground arith;
}

save_inner-SavedOr_example :
    let after = run (save_inner not_upward host 100 (some 7) input) start in
    SavedOr not_upward host 100 (some 7) input start.db after.0 after.1.db
save_inner-SavedOr_example = save_inner-SavedOr not_upward host 100 (some 7) input start unique

restore_version-RestoredOr_example :
    let after = run (restore_version not_upward host 100 7 "v") start in
    RestoredOr not_upward host 100 7 "v" start.db after.0 after.1.db
restore_version-RestoredOr_example =
    restore_version-RestoredOr not_upward host 100 7 "v" start unique

build_unchanged_example : (run (build host 100 fresh_rule) start).1.db ≡ start.db
build_unchanged_example = build_unchanged host 100 fresh_rule start

abbrev saved_rule : Rule
saved_rule = record fresh_rule { last_modified_at = 400000000 }

save_inner-HasNoLoop_example : HasNoLoop not_upward host 100 (some 7) input start.db
unfolding save_inner run ◌>>◌ validate_condition pure validate_actions sort insert_sorted select
    atomic check_no_cycle extract parse save
save_inner-HasNoLoop_example =
    save_inner-HasNoLoop not_upward host 100 (some 7) input start saved_rule not_upward-finds
      (λ n. ground arith) unique refl
