-- ===== src/Examples/Views.antt =====
-- Functions without calls: groups/rollup.rs, rules/field.rs and rules/evaluator.rs.
use myccmonitor.Prelude.{
  ℕ, zero, suc, ◌≡◌, ◌↔◌, refl, String, Bool, true, false, ◌||◌, Option, none, some, List, [], ◌∷◌,
  arith, any, contains,
}
use myccmonitor.Prelude.Int.{pos}
use myccmonitor.Json.{Uuid, Json}
use myccmonitor.Error.{ok}
use myccmonitor.Store.Rows.{Monitor, MonitorGroup, MetricReading, AutoRules}
use myccmonitor.Groups.Rollup.{rollup, view_of}
use myccmonitor.Groups.Rollup.Worst.{member_states, worst, rollup-worst}
use myccmonitor.Groups.Rollup.Members.{IsIncreasing, is_auto_member, view_of-members}
use myccmonitor.Rules.Condition.{gt}
use myccmonitor.Rules.Field.{MonitorProp, monitor, number, parse}
use myccmonitor.Rules.Field.RoundTrip.{NoColon, show_ref, parse-show_ref}
use myccmonitor.Rules.Evaluator.Compare.{compare}
use myccmonitor.Rules.Evaluator.Compare.Laws.{Fits, compare-Fits}
use myccmonitor.Rules.Evaluator.Held.{window_start, metric_held}
use myccmonitor.Rules.Evaluator.Held.Window.{
  HeldSince, passes_reading, metric_held-HeldSince, metric_held_capacity,
}
use myccmonitor.Rules.Dependencies.{Ref, ref_eq, extract}
use myccmonitor.Rules.Dependencies.Complete.{IsDistinct, refers, extract-refers}
use myccmonitor.Examples.Fixture.{is_ok_condition, host, monitor_of}

abbrev members : List Monitor
members = monitor_of 3 100 "warning" ∷ monitor_of 1 100 "critical" ∷ monitor_of 2 100 "ok" ∷ []

rollup-worst_example : (rollup (1 ∷ 3 ∷ []) members).0 ≡ worst (member_states (1 ∷ 3 ∷ []) members)
rollup-worst_example = rollup-worst (1 ∷ 3 ∷ []) members

-- Every application is an automatic member.
abbrev all_applications : Json → Option AutoRules
all_applications j = some (record { name_pattern = none; kinds = some ("application" ∷ []) })

abbrev no_regex : String → Option (String → Bool)
no_regex p = none

abbrev group : MonitorGroup
group = record {
  id = 5;
  user_id = 100;
  name = "all";
  description = none;
  auto_rules = some Json.null;
  created_at = 0;
  updated_at = 0;
}

view_of-members_example :
    let ids = (view_of all_applications no_regex 100 group (4 ∷ []) members).member_ids in
    IsIncreasing ids
    × ((i : Uuid)
        → contains ids i ≡ (
            contains (4 ∷ []) i
            || any (is_auto_member all_applications no_regex 100 group i) members))
view_of-members_example = view_of-members all_applications no_regex 100 group (4 ∷ []) members

abbrev reading_at : ℕ → ℕ → MetricReading
reading_at ts value = record { monitor_id = 1; metric_name = "cpu"; ts = ts; value = value }

-- Samples of one a minute.
abbrev samples : List MetricReading
samples = reading_at 60000000 90 ∷ reading_at 120000000 95 ∷ reading_at 180000000 99 ∷ []

metric_held-HeldSince_example :
    (metric_held host samples gt (Json.number 80) (pos 100) 190000000 ≡ true)
    ↔ HeldSince (passes_reading host gt (Json.number 80)) (window_start 190000000 (pos 100)) samples
metric_held-HeldSince_example =
    metric_held-HeldSince host samples gt (Json.number 80) (pos 100) 190000000 (omega arith)
      ((omega arith, (omega arith, tt)), ((omega arith, tt), (tt, tt)))

metric_held_capacity_example :
    metric_held host samples gt (Json.number 80) (pos 180) 190000000 ≡ false
metric_held_capacity_example =
    metric_held_capacity host samples gt (Json.number 80) 60000000 180 190000000
      (omega arith, (omega arith, omega arith)) (omega arith) (omega arith)

-- A number in unary.
abbrev unary : Uuid → String
unary zero = String.[]
unary (suc n) = String.◌∷◌ "1" (unary n)

abbrev succ_of : Option Uuid → Option Uuid
succ_of none = none
succ_of (some n) = some (suc n)

abbrev count_chars : String → Option Uuid
count_chars String.[] = some 0
count_chars (String.◌∷◌ c s) = succ_of (count_chars s)

unary-NoColon : (i : Uuid) → NoColon (unary i)
unary-NoColon zero = tt
unary-NoColon (suc n) = (refl, unary-NoColon n)

count_chars-unary : (i : Uuid) → count_chars (unary i) ≡ some i
count_chars-unary zero = refl
count_chars-unary (suc n) = rw (count_chars-unary n) refl

parse-show_ref_example :
    parse count_chars (show_ref unary (monitor 3 MonitorProp.cpu)) ≡ ok (monitor 3 MonitorProp.cpu)
parse-show_ref_example =
    parse-show_ref count_chars unary unary-NoColon count_chars-unary (monitor 3 MonitorProp.cpu)

gt_four : compare host (number 5) gt (Json.number 4) ≡ true
unfolding compare
gt_four = refl

compare-Fits_example : Fits host gt (number 5) (Json.number 4)
compare-Fits_example = compare-Fits host gt (number 5) (Json.number 4) gt_four

extract-refers_example :
    IsDistinct (extract host.parse_uuid is_ok_condition)
    × ((p : Ref)
        → any (λ q. ref_eq p q) (extract host.parse_uuid is_ok_condition)
          ≡ refers host.parse_uuid p is_ok_condition)
extract-refers_example = extract-refers host.parse_uuid is_ok_condition
