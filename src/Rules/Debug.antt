-- ===== src/Rules/Debug.antt =====
-- rules/debug.rs: the snapshot of a rule that the debug panel shows. Its cooldown is in
-- Rules/Cooldown.antt.
pub mod Reads
pub mod Traced
use myccmonitor.Prelude.{
  ℕ, String, Bool, true, false, ◌&&◌, ◌||◌, Option, none, some, List, [], ◌∷◌, if◌then◌else◌,
  str_eq, contains,
}
use myccmonitor.Prelude.Int.{ℤ, pos}
use myccmonitor.Json.{Uuid, Instant, Json}
use myccmonitor.Error.{Error, Result, ok, err}
use myccmonitor.Task.{◌>>=◌, ◌>>◌, pure, attempt}
use myccmonitor.World.{Async, select, utc_now}
use myccmonitor.Host.{Host}
use myccmonitor.Store.Rows.{Monitor, MonitorGroup, NotificationChannel, Rule}
use myccmonitor.Store.Tables.{RuleFiring}
use myccmonitor.Store.Monitors.{find_by_id_for_user, list_for_user}
use myccmonitor.Store.Groups.{find_group}
use myccmonitor.Store.Channels.{find_channel}
use myccmonitor.Store.Firings.{list_recent_for_rule}
use myccmonitor.Groups.Rollup.{GroupView}
use myccmonitor.Rules.Condition.{
  CompOp, LogicalOp, and, or, DurationSpec, Condition, comparison, logical, Children, no_child,
  child, Action, send_notification,
}
use myccmonitor.Rules.Field.{FieldRef, monitor, group, GroupProp, FieldValue, null, parse}
use myccmonitor.Rules.Fetch.{
  Cache, user_monitors, fetch_monitor, compute_view, group_value, rolled_text,
}
use myccmonitor.Rules.Evaluator.Compare.{compare}
use myccmonitor.Rules.Evaluator.Evaluate.{evaluate}
use myccmonitor.Rules.Cooldown.{seconds_since, max_zero, CooldownState, compute_cooldown}
use myccmonitor.Rules.Dependencies.{Ref, extract}
use myccmonitor.Rules.Exec.{decoded}

-- The two `json!` literals of `trace`.
mutual
  pub data Trace : Type 0 where
    comparison_trace :
        (field : String) (operator : CompOp) (expected : Json) (actual : FieldValue)
        (verdict : Bool) (for_duration : Option DurationSpec) (parse_error : Option Error)
        → Trace
    logical_trace : (op : LogicalOp) (verdict : Bool) (children : Traces) → Trace

  pub data Traces : Type 0 where
    no_trace : Traces
    trace_and : Trace → Traces → Traces

abbrev pub verdict_of : Trace → Bool
verdict_of (comparison_trace field op expected actual verdict d e) = verdict
verdict_of (logical_trace op verdict children) = verdict

abbrev pub all_verdicts : Traces → Bool
all_verdicts no_trace = true
all_verdicts (trace_and t ts) = verdict_of t && all_verdicts ts

abbrev pub any_verdict : Traces → Bool
any_verdict no_trace = false
any_verdict (trace_and t ts) = verdict_of t || any_verdict ts

abbrev pub verdict_by : LogicalOp → Traces → Bool
verdict_by and ts = all_verdicts ts
verdict_by or ts = any_verdict ts

pub record MonitorDebugInfo : Type 0 where
  pub id : Uuid
  pub display_name : String
  pub kind : String
  pub current_state : String
  pub current_state_since : Option Instant
  pub current_message : Option String
  pub held_for_seconds : ℤ

pub record GroupDebugInfo : Type 0 where
  pub id : Uuid
  pub name : String
  pub rolled_state : String
  pub critical_count : ℕ
  pub warning_count : ℕ
  pub ok_count : ℕ
  pub unknown_count : ℕ
  pub total : ℕ
  pub member_ids : List Uuid

pub record ChannelDebugInfo : Type 0 where
  pub id : Uuid
  pub name : String
  pub kind : String
  pub enabled : Bool
  pub failure_count : ℤ
  pub last_success_at : Option Instant
  pub last_failure_at : Option Instant
  pub last_failure_message : Option String

pub record RuleDebugResponse : Type 0 where
  pub rule : Rule
  pub would_match_now : Bool
  pub condition_summary : Trace
  pub cooldown : CooldownState
  pub recent_firings : List RuleFiring
  pub monitors_referenced : List MonitorDebugInfo
  pub groups_referenced : List GroupDebugInfo
  pub channels_used : List ChannelDebugInfo

unfoldable pub channel_to_debug : NotificationChannel → ChannelDebugInfo
channel_to_debug c = record {
  id = c.id;
  name = c.name;
  kind = c.kind;
  enabled = c.enabled;
  failure_count = c.failure_count;
  last_success_at = c.last_success_at;
  last_failure_at = c.last_failure_at;
  last_failure_message = c.last_failure_message;
}

-- `held_for_seconds`; the clock is read only where there is an instant.
unfoldable pub held_for_seconds : Option Instant → Async ℤ
held_for_seconds none = pure (pos 0)
held_for_seconds (some since) = do now ← utc_now; pure (max_zero (seconds_since now since))

unfoldable pub monitor_info : Option Monitor → Async (Option MonitorDebugInfo)
unfolding held_for_seconds
monitor_info none = pure none
monitor_info (some m) = do
  held ← held_for_seconds m.current_state_since
  pure (
      some (record {
        id = m.id;
        display_name = m.display_name;
        kind = m.kind;
        current_state = m.current_state;
        current_state_since = m.current_state_since;
        current_message = m.current_message;
        held_for_seconds = held;
      }))

unfoldable pub monitor_debug_info : Uuid → Uuid → Async (Option MonitorDebugInfo)
unfolding monitor_info
monitor_debug_info user_id monitor_id = do
  m ← select (find_by_id_for_user user_id monitor_id)
  monitor_info m

unfoldable pub group_to_debug : GroupView → GroupDebugInfo
unfolding rolled_text
group_to_debug v = record {
  id = v.group.id;
  name = v.group.name;
  rolled_state = rolled_text v.rolled_state;
  critical_count = v.state_breakdown.critical;
  warning_count = v.state_breakdown.warning;
  ok_count = v.state_breakdown.ok;
  unknown_count = v.state_breakdown.unknown;
  total = v.state_breakdown.total;
  member_ids = v.member_ids;
}

abbrev pub push_some {ℓ} : {A : Type ℓ} → Option A → List A → List A
push_some none xs = xs
push_some (some x) xs = x ∷ xs

unfoldable pub channel_info : Option NotificationChannel → Option ChannelDebugInfo
unfolding channel_to_debug
channel_info none = none
channel_info (some c) = some (channel_to_debug c)

-- The loop over the actions, with the set of the channels seen.
unfoldable pub channels_used : Uuid → List Uuid → List Action → Async (List ChannelDebugInfo)
unfolding channel_info
channels_used user_id seen [] = pure []
channels_used user_id seen (send_notification id message subject ∷ rest) =
    if contains seen id then channels_used user_id seen rest else (do
      c ← select (find_channel user_id id)
      cs ← channels_used user_id (id ∷ seen) rest
      pure (push_some (channel_info c) cs))
channels_used user_id seen (a ∷ rest) = channels_used user_id seen rest

module _ (h : Host) (user_id : Uuid) where
  -- `fetch` with its error as a value: the cache keeps the monitors that were loaded before it.
  unfoldable pub kept_view :
      GroupProp → MonitorGroup → Cache → Result (List Monitor) → Async (Result FieldValue × Cache)
  kept_view prop g cache (err e) = pure (err e, cache)
  kept_view prop g cache (ok ms) = do
    v ← attempt (compute_view h user_id g ms >>= λ view. pure (group_value h prop view))
    pure (v, some ms)

  unfoldable pub kept_group :
      GroupProp → Cache → Result (Option MonitorGroup) → Async (Result FieldValue × Cache)
  unfolding kept_view
  kept_group prop cache (err e) = pure (err e, cache)
  kept_group prop cache (ok none) = pure (ok null, cache)
  kept_group prop cache (ok (some g)) = do
    ms ← attempt (user_monitors user_id cache)
    kept_view prop g cache ms

  unfoldable pub fetch_kept : Cache → FieldRef → Async (Result FieldValue × Cache)
  unfolding kept_group
  fetch_kept cache (monitor id prop) = do
    v ← attempt (fetch_monitor user_id id prop)
    pure (v, cache)
  fetch_kept cache (group id prop) = do
    g ← attempt (select (find_group user_id id))
    kept_group prop cache g

  abbrev pub traced : String → CompOp → Json → Option DurationSpec → Result FieldValue → Trace
  traced field op expected d (ok live) =
      comparison_trace field op expected live (compare h live op expected) d none
  traced field op expected d (err e) = comparison_trace field op expected null false d (some e)

  unfoldable pub trace_field :
      Cache → String → CompOp → Json → Option DurationSpec → Result FieldRef → Async (Trace × Cache)
  unfolding fetch_kept
  trace_field cache field op expected d (err e) =
      pure (comparison_trace field op expected null false d (some e), cache)
  trace_field cache field op expected d (ok r) = do
    (live, cache') ← fetch_kept cache r
    pure (traced field op expected d live, cache')

  unfoldable mutual
    unfolding trace_field

    pub trace : Cache → Condition → Async (Trace × Cache)
    trace cache (comparison field op expected d) =
        trace_field cache field op expected d (parse h.parse_uuid field)
    trace cache (logical op children) = do
      (ts, cache') ← trace_children cache children
      pure (logical_trace op (verdict_by op ts) ts, cache')

    pub trace_children : Cache → Children → Async (Traces × Cache)
    trace_children cache no_child = pure (no_trace, cache)
    trace_children cache (child c cs) = do
      (t, cache') ← trace cache c
      (ts, cache'') ← trace_children cache' cs
      pure (trace_and t ts, cache'')

  unfoldable pub group_info : Option MonitorGroup → Async (Option GroupDebugInfo)
  unfolding group_to_debug
  group_info none = pure none
  group_info (some g) = do
    ms ← select (list_for_user user_id)
    view ← compute_view h user_id g ms
    pure (some (group_to_debug view))

  unfoldable pub group_debug_info : Uuid → Async (Option GroupDebugInfo)
  unfolding group_info
  group_debug_info group_id = do g ← select (find_group user_id group_id); group_info g

  abbrev pub Infos : Type 0
  Infos = List MonitorDebugInfo × List GroupDebugInfo

  -- The loop over the references.
  unfoldable pub referenced : List Ref → Async Infos
  unfolding group_debug_info monitor_debug_info
  referenced [] = pure ([], [])
  referenced ((kind, id) ∷ rest) =
      if str_eq kind "monitor"
      then (do
        info ← monitor_debug_info user_id id
        infos ← referenced rest
        pure (push_some info infos.0, infos.1))
      else if str_eq kind "group"
      then (do
        info ← group_debug_info id
        infos ← referenced rest
        pure (infos.0, push_some info infos.1))
      else referenced rest

  unfoldable pub build : Rule → Async RuleDebugResponse
  unfolding decoded referenced channels_used
  build rule = do
    condition ← decoded (h.decode_condition rule.condition)
    actions ← decoded (h.decode_actions rule.actions)
    (would_match_now, cache) ← evaluate h user_id none condition
    now ← utc_now
    (condition_summary, cache') ← trace cache condition
    (monitors, groups) ← referenced (extract h.parse_uuid condition)
    channels ← channels_used user_id [] actions
    firings ← select (list_recent_for_rule user_id rule.id 10)
    pure (record {
      rule = rule;
      would_match_now = would_match_now;
      condition_summary = condition_summary;
      cooldown = compute_cooldown rule now would_match_now;
      recent_firings = firings;
      monitors_referenced = monitors;
      groups_referenced = groups;
      channels_used = channels;
    })
