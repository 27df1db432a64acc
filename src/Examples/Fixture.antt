-- ===== src/Examples/Fixture.antt =====
-- Test data: two users, a monitor, a rule and a channel for the first, and a host whose parsers
-- know just enough.
use myccmonitor.Prelude.{
  ℕ, ◌-◌, ◌+◌, ◌==◌, String, true, false, not, Option, none, some, [], ◌∷◌, ltb,
}
use myccmonitor.Prelude.Int.{pos}
use myccmonitor.Json.{Uuid, Json}
use myccmonitor.Host.{FloatOps, Host}
use myccmonitor.World.{Oracle, World}
use myccmonitor.Store.Rows.{Monitor, Rule, NotificationChannel}
use myccmonitor.Store.Tables.{Db}
use myccmonitor.Rules.Condition.{
  eq, neq, and, Condition, comparison, logical, child, no_child, set_monitor_state,
  send_notification,
}

abbrev pub float_ops : FloatOps
float_ops = record {
  lt = λ x y. ltb x y;
  le = λ x y. not (ltb y x);
  sub = λ x y. x - y;
  abs = λ x. x;
  epsilon = 1;
  of_u32 = λ n. n;
}

-- `monitor:1:state == "ok"` and `monitor:1:state != "down"`.
abbrev pub is_ok_condition : Condition
is_ok_condition = logical and (
    child (comparison "monitor:1:state" eq (Json.string "ok") none)
      (child (comparison "monitor:1:state" neq (Json.string "down") none) no_child))

abbrev pub host : Host
host = record {
  float = float_ops;
  parse_uuid = λ s. some 1;
  new_v4 = λ n. 2000 + n;
  as_f64 = λ n. some n;
  decode_condition = λ j. some is_ok_condition;
  decode_actions =
      λ j. some (set_monitor_state 1 "critical" none none ∷ send_notification 9 "" none ∷ []);
  decode_auto_rules = λ j. none;
  compile_regex = λ p. none;
  debug_value = λ v. "value";
  debug_json = λ j. "json";
  render_template = λ t c. some t;
  is_whitespace = λ c. false;
  show_error = λ e. "error";
  encode_condition = λ c. Json.null;
  encode_actions = λ a. Json.null;
  encode_rule = λ r. Json.null;
  decode_rule = λ j. none;
  version_name = λ n. "v";
  decode_bus_message = λ b. none;
  decode_envelope = λ b. none;
  decode_escalation = λ b. none;
}

abbrev pub monitor_of : Uuid → Uuid → String → Monitor
monitor_of id user_id s = record {
  id = id;
  user_id = user_id;
  cc_org_id = some "orga";
  kind = "application";
  cc_resource_id = none;
  cc_metrics_id = none;
  display_name = "web";
  enabled = true;
  poll_interval_seconds = pos 60;
  current_state = s;
  current_message = none;
  current_state_since = none;
  last_poll_at = none;
  acknowledged = false;
  metadata = none;
  created_at = 0;
  updated_at = 0;
}

-- Rule 7 of user 100, whose last evaluation had the given outcome and time.
abbrev pub rule_of : Option String → Option ℕ → Rule
rule_of outcome fired_at = record {
  id = 7;
  user_id = 100;
  name = "down";
  is_enabled = true;
  condition = Json.null;
  actions = Json.null;
  cooldown_seconds = pos 300;
  last_fired_at = fired_at;
  last_outcome_state = outcome;
  metadata = none;
  created_at = 0;
  last_modified_at = 0;
}

abbrev pub channel : NotificationChannel
channel = record {
  id = 9;
  user_id = 100;
  kind = "email";
  name = "ops";
  config = Json.null;
  enabled = true;
  failure_count = pos 0;
  last_success_at = none;
  last_failure_at = none;
  last_failure_message = none;
  created_at = 0;
  updated_at = 0;
}

abbrev pub db_of : String → Rule → Db
db_of s rule = record {
  monitors = monitor_of 1 100 s ∷ monitor_of 2 200 "ok" ∷ [];
  history = [];
  readings = [];
  groups = [];
  members = [];
  rules = rule ∷ [];
  dependencies = record { rule_id = 7; ref_kind = "monitor"; ref_id = 1 } ∷ [];
  firings = [];
  channels = channel ∷ [];
  alerts = [];
  broadcasts = [];
  escalations = [];
  deliveries = [];
  versions = [];
  users = [];
  webhooks = [];
  dedup = [];
  published = [];
  acked = [];
}

-- Every call answers, at 400 seconds.
abbrev pub calm : Oracle
calm = record { down = λ n. false; time = λ n. 400000000; pick = λ n. true; fresh = λ n. 1000 + n }

abbrev pub failing_at : ℕ → Oracle
failing_at k = record {
  down = λ n. n == k;
  time = λ n. 400000000;
  pick = λ n. true;
  fresh = λ n. 1000 + n;
}

abbrev pub world_of : Db → Oracle → World
world_of db o = record { db = db; in_flight = []; ticks = 0; oracle = o }
