-- ===== src/Handlers/Rules.antt =====
-- handlers/rules.rs: saving, restoring, deleting and testing a rule.
pub mod Owned
pub mod Saved
pub mod Requests
use Prim.Native.String.{◌++◌}
use myccmonitor.Prelude.{
  ℕ, String, Bool, true, false, not, ◌&&◌, Option, none, some, List, [], ◌∷◌, if◌then◌else◌, ◌==◌,
  length, contains, count_by,
}
use myccmonitor.Prelude.Int.{ℤ, pos, ltb_ℤ}
use myccmonitor.Json.{Uuid, Json}
use myccmonitor.Error.{
  Error, decode, empty_name, negative_cooldown, forbidden, not_found, version_not_found, Result, ok,
  err,
}
use myccmonitor.Task.{◌>>=◌, ◌>>◌, pure, throw}
use myccmonitor.World.{Async, query, select}
use myccmonitor.Host.{Host}
use myccmonitor.Store.Rows.{Monitor, Rule, NotificationChannel}
use myccmonitor.Store.Tables.{Db}
use myccmonitor.Store.Rules.{find_rule}
use myccmonitor.Store.Rules.Save.{RuleColumns, save, delete_rule, find_version_payload}
use myccmonitor.Groups.Rollup.{sort}
use myccmonitor.Rules.Condition.{
  Condition, Action, set_monitor_state, send_notification, escalate, validate_condition,
  validate_actions,
}
use myccmonitor.Rules.Dependencies.{extract}
use myccmonitor.Rules.Cycle.{Edge, check_no_cycle}
use myccmonitor.Rules.Exec.{dedup, decoded}
use myccmonitor.Rules.Evaluator.Evaluate.{evaluate}
use myccmonitor.Rules.Debug.{RuleDebugResponse, build}

pub record UpsertInput : Type 0 where
  pub name : String
  pub is_enabled : Bool
  pub condition : Condition
  pub actions : List Action
  pub cooldown_seconds : ℤ
  pub metadata : Option Json
  pub comment : Option String

abbrev pub is_empty : String → Bool
is_empty String.[] = true
is_empty (String.◌∷◌ c s) = false

-- `str::trim`
unfoldable pub trim_end : Host → String → String
trim_end h String.[] = String.[]
trim_end h (String.◌∷◌ c s) =
    let rest = trim_end h s in
    if h.is_whitespace c && is_empty rest then String.[] else String.◌∷◌ c rest

unfoldable pub trim_start : Host → String → String
trim_start h String.[] = String.[]
trim_start h (String.◌∷◌ c s) =
    let rest = trim_start h s in if h.is_whitespace c then rest else String.◌∷◌ c s

unfoldable pub trim : Host → String → String
unfolding trim_start trim_end
trim h s = trim_end h (trim_start h s)

-- The loop over the actions.
unfoldable pub monitor_ids : List Action → List Uuid
monitor_ids [] = []
monitor_ids (set_monitor_state id s message ack ∷ rest) = id ∷ monitor_ids rest
monitor_ids (a ∷ rest) = monitor_ids rest

unfoldable pub rule_ids : List Action → List Uuid
rule_ids [] = []
rule_ids (escalate delay id ∷ rest) = id ∷ rule_ids rest
rule_ids (a ∷ rest) = rule_ids rest

unfoldable pub channel_ids : List Action → List Uuid
channel_ids [] = []
channel_ids (send_notification id message subject ∷ rest) = id ∷ channel_ids rest
channel_ids (a ∷ rest) = channel_ids rest

-- `SELECT COUNT(*) FROM {table} WHERE user_id = $1 AND id = ANY($2)`
module _ {A : Type 0} (key owner : A → Uuid) (table : Db → List A) where
  abbrev pub count_owned : Uuid → List Uuid → Db → ℕ
  count_owned user_id ids db =
      count_by (λ a. (owner a == user_id) && contains ids (key a)) (table db)

  unfoldable pub owned_distinct : Uuid → List Uuid → Async (Unit {0})
  owned_distinct user_id [] = pure tt
  owned_distinct user_id (i ∷ ids) = do
    found ← select (count_owned user_id (i ∷ ids))
    if not (found == length (i ∷ ids)) then throw forbidden else pure tt

  unfoldable pub all_owned : Uuid → List Uuid → Async (Unit {0})
  unfolding owned_distinct dedup
  all_owned user_id ids = owned_distinct user_id (dedup (sort ids))

abbrev pub monitors_of : Db → List Monitor
monitors_of db = db.monitors

abbrev pub rules_of : Db → List Rule
rules_of db = db.rules

abbrev pub channels_of : Db → List NotificationChannel
channels_of db = db.channels

unfoldable pub validate_action_refs : Uuid → List Action → Async (Unit {0})
unfolding all_owned monitor_ids rule_ids channel_ids
validate_action_refs user_id actions = do
  all_owned (λ m. m.id) (λ m. m.user_id) monitors_of user_id (monitor_ids actions)
  all_owned (λ r. r.id) (λ r. r.user_id) rules_of user_id (rule_ids actions)
  all_owned (λ c. c.id) (λ c. c.user_id) channels_of user_id (channel_ids actions)

-- `?` on a result.
unfoldable pub of_result : {A : Type 0} → Result A → Async A
of_result (ok a) = pure a
of_result (err e) = throw e

-- `fetch_optional(…).await?.ok_or_else(…)?`
unfoldable pub or_fail : {A : Type 0} → Error → Option A → Async A
or_fail e none = throw e
or_fail e (some a) = pure a

pub record DryRunResult : Type 0 where
  pub matched : Bool
  pub actions_that_would_run : ℕ

module _ (is_cyclic_directed : List Uuid → List Edge → Bool) (h : Host) where
  abbrev pub columns_of : UpsertInput → RuleColumns
  columns_of input = record {
    name = trim h input.name;
    is_enabled = input.is_enabled;
    condition = h.encode_condition input.condition;
    actions = h.encode_actions input.actions;
    cooldown_seconds = input.cooldown_seconds;
    metadata = input.metadata;
  }

  -- The transaction of `rules::save`.
  unfoldable pub persist : Uuid → Option Uuid → UpsertInput → Async Rule
  unfolding of_result
  persist user_id id input = do
    r ← query (λ now fresh db.
        save h.encode_rule h.version_name user_id id (columns_of input)
          (extract h.parse_uuid input.condition) input.comment now fresh db)
    of_result r

  -- After the name and the cooldown.
  unfoldable pub save_checked : Uuid → Option Uuid → UpsertInput → Async Rule
  unfolding validate_action_refs persist of_result
  save_checked user_id id input = do
    of_result (validate_condition input.condition)
    of_result (validate_actions input.actions)
    validate_action_refs user_id input.actions
    check_no_cycle is_cyclic_directed h user_id
        (record { id = id; condition = input.condition; actions = input.actions })
    persist user_id id input

  unfoldable pub save_inner : Uuid → Option Uuid → UpsertInput → Async Rule
  unfolding save_checked trim
  save_inner user_id id input =
      if is_empty (trim h input.name)
      then throw empty_name
      else if ltb_ℤ input.cooldown_seconds (pos 0)
      then throw negative_cooldown
      else save_checked user_id id input

  unfoldable pub create : Uuid → UpsertInput → Async Rule
  unfolding save_inner
  create user_id input = save_inner user_id none input

  unfoldable pub update : Uuid → Uuid → UpsertInput → Async Rule
  unfolding save_inner
  update user_id id input = save_inner user_id (some id) input

  -- The input that a snapshot gives.
  abbrev pub restored_input : Rule → String → Condition → List Action → UpsertInput
  restored_input snap version_id condition actions = record {
    name = snap.name;
    is_enabled = snap.is_enabled;
    condition = condition;
    actions = actions;
    cooldown_seconds = snap.cooldown_seconds;
    metadata = snap.metadata;
    comment = some ("restore from " ++ version_id);
  }

  unfoldable pub restore_version : Uuid → Uuid → String → Async Rule
  unfolding save_inner or_fail decoded
  restore_version user_id id version_id = do
    found ← select (find_version_payload user_id id version_id)
    payload ← or_fail (version_not_found id version_id) found
    snap ← decoded (h.decode_rule payload)
    condition ← decoded (h.decode_condition snap.condition)
    actions ← decoded (h.decode_actions snap.actions)
    save_inner user_id (some id) (restored_input snap version_id condition actions)

  -- rules/exec.rs, `evaluate_dry`
  unfoldable pub evaluate_dry : Rule → Async DryRunResult
  unfolding decoded
  evaluate_dry rule = do
    condition ← decoded (h.decode_condition rule.condition)
    actions ← decoded (h.decode_actions rule.actions)
    (matched, cache) ← evaluate h rule.user_id none condition
    pure (record {
      matched = matched;
      actions_that_would_run = if matched then length actions else 0;
    })

  unfoldable pub test_dry_run : Uuid → Uuid → Async DryRunResult
  unfolding evaluate_dry or_fail
  test_dry_run user_id id = do
    found ← select (find_rule user_id id)
    rule ← or_fail (not_found id) found
    evaluate_dry rule

  unfoldable pub get_debug : Uuid → Uuid → Async RuleDebugResponse
  unfolding or_fail
  get_debug user_id id = do
    found ← select (find_rule user_id id)
    rule ← or_fail (not_found id) found
    build h user_id rule

-- The handlers `read` and `delete`.
unfoldable pub read : Uuid → Uuid → Async Rule
unfolding or_fail
read user_id id = do found ← select (find_rule user_id id); or_fail (not_found id) found

unfoldable pub delete : Uuid → Uuid → Async (Unit {0})
delete user_id id = do
  n ← query (λ now fresh db. delete_rule user_id id db)
  if n == 0 then throw (not_found id) else pure tt
