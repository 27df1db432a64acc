-- ===== src/Rules/Debug/Reads.antt =====
-- rules/debug.rs: the debug panel only reads.
use myccmonitor.Prelude.{◌≡◌, refl, String, Option, none, some, List, [], ◌∷◌, str_eq, contains}
use myccmonitor.Json.{Uuid, Instant, Json}
use myccmonitor.Error.{Result, ok, err}
use myccmonitor.Task.{Task, run}
use myccmonitor.Task.Invariant.{
  Keeps, Keeps-bind, Keeps-pure, Keeps-throw, Keeps-attempt, Keeps-if, Keeps-run,
}
use myccmonitor.World.{World}
use myccmonitor.World.Laws.{OnDb, Keeps-select, Keeps-utc_now, keeps_rules}
use myccmonitor.Host.{Host}
use myccmonitor.Store.Rows.{Monitor, MonitorGroup, Rule}
use myccmonitor.Store.Tables.{Db}
use myccmonitor.Rules.Condition.{
  CompOp, DurationSpec, Condition, comparison, logical, Children, no_child, child, Action,
  send_notification, set_monitor_state, escalate,
}
use myccmonitor.Rules.Field.{FieldRef, monitor, group, GroupProp}
use myccmonitor.Rules.Fetch.{Cache, compute_view}
use myccmonitor.Rules.Dependencies.{Ref, extract}
use myccmonitor.Rules.Exec.{decoded}
use myccmonitor.Rules.Evaluator.Evaluate.Reads.{
  user_monitors-Reads, fetch_monitor-Reads, evaluate-Reads,
}
use myccmonitor.Rules.Debug.{
  held_for_seconds, monitor_info, monitor_debug_info, channels_used, kept_view, kept_group,
  fetch_kept, trace_field, trace, trace_children, group_info, group_debug_info, referenced, build,
}

module _ (P : Db → Type 0) (h : Host) (u : Uuid) where
  abbrev Reads : {A : Type 0} → Task World A → Type 0
  Reads t = Keeps (OnDb P) t

  decoded-Reads : {A : Type 0} (o : Option A) → Reads (decoded o)
  unfolding decoded
  decoded-Reads none = Keeps-throw _
  decoded-Reads (some a) = Keeps-pure a

  view-Reads : (g : MonitorGroup) (ms : List Monitor) → Reads (compute_view h u g ms)
  unfolding compute_view
  view-Reads g ms = Keeps-bind _ (Keeps-select _) (λ is. Keeps-pure _)

  kept_view-Reads :
      (prop : GroupProp) (g : MonitorGroup) (cache : Cache) (r : Result (List Monitor))
      → Reads (kept_view h u prop g cache r)
  unfolding kept_view
  kept_view-Reads prop g cache (err e) = Keeps-pure _
  kept_view-Reads prop g cache (ok ms) =
      Keeps-bind _ (Keeps-attempt (Keeps-bind _ (view-Reads g ms) (λ v. Keeps-pure _)))
        (λ v. Keeps-pure _)

  kept_group-Reads :
      (prop : GroupProp) (cache : Cache) (r : Result (Option MonitorGroup))
      → Reads (kept_group h u prop cache r)
  unfolding kept_group
  kept_group-Reads prop cache (err e) = Keeps-pure _
  kept_group-Reads prop cache (ok none) = Keeps-pure _
  kept_group-Reads prop cache (ok (some g)) =
      Keeps-bind _ (Keeps-attempt (user_monitors-Reads P h u cache))
        (λ ms. kept_view-Reads prop g cache ms)

  fetch_kept-Reads : (cache : Cache) (r : FieldRef) → Reads (fetch_kept h u cache r)
  unfolding fetch_kept
  fetch_kept-Reads cache (monitor id prop) =
      Keeps-bind _ (Keeps-attempt (fetch_monitor-Reads P h u id prop)) (λ v. Keeps-pure _)
  fetch_kept-Reads cache (group id prop) =
      Keeps-bind _ (Keeps-attempt (Keeps-select _)) (λ g. kept_group-Reads prop cache g)

  trace_field-Reads :
      (cache : Cache) (field : String) (op : CompOp) (expected : Json) (d : Option DurationSpec)
      (r : Result FieldRef)
      → Reads (trace_field h u cache field op expected d r)
  unfolding trace_field
  trace_field-Reads cache field op expected d (err e) = Keeps-pure _
  trace_field-Reads cache field op expected d (ok r) =
      Keeps-bind _ (fetch_kept-Reads cache r) (λ a. Keeps-pure _)

  mutual
    unfolding trace trace_children

    trace-Reads : (cache : Cache) (c : Condition) → Reads (trace h u cache c)
    trace-Reads cache (comparison field op expected d) =
        trace_field-Reads cache field op expected d _
    trace-Reads cache (logical op cs) =
        Keeps-bind _ (trace_children-Reads cache cs) (λ a. Keeps-pure _)

    trace_children-Reads : (cache : Cache) (cs : Children) → Reads (trace_children h u cache cs)
    trace_children-Reads cache no_child = Keeps-pure _
    trace_children-Reads cache (child c cs) =
        Keeps-bind _ (trace-Reads cache c)
          (λ a. Keeps-bind _ (trace_children-Reads a.1 cs) (λ b. Keeps-pure _))

  held-Reads : (o : Option Instant) → Reads (held_for_seconds o)
  unfolding held_for_seconds
  held-Reads none = Keeps-pure _
  held-Reads (some since) = search keeps_rules

  monitor_info-Reads : (o : Option Monitor) → Reads (monitor_info o)
  unfolding monitor_info
  monitor_info-Reads none = Keeps-pure _
  monitor_info-Reads (some m) =
      Keeps-bind _ (held-Reads m.current_state_since) (λ held. Keeps-pure _)

  group_info-Reads : (o : Option MonitorGroup) → Reads (group_info h u o)
  unfolding group_info
  group_info-Reads none = Keeps-pure _
  group_info-Reads (some g) =
      Keeps-bind _ (Keeps-select _) (λ ms. Keeps-bind _ (view-Reads g ms) (λ v. Keeps-pure _))

  channels_used-Reads :
      (seen : List Uuid) (actions : List Action) → Reads (channels_used u seen actions)
  unfolding channels_used
  channels_used-Reads seen [] = Keeps-pure _
  channels_used-Reads seen (send_notification id message subject ∷ rest) =
      Keeps-if (contains seen id) (λ _. channels_used-Reads seen rest)
        (λ _.
          Keeps-bind _ (Keeps-select _)
            (λ c. Keeps-bind _ (channels_used-Reads (id ∷ seen) rest) (λ cs. Keeps-pure _)))
  channels_used-Reads seen (set_monitor_state id s m a ∷ rest) = channels_used-Reads seen rest
  channels_used-Reads seen (escalate d id ∷ rest) = channels_used-Reads seen rest

  referenced-Reads : (refs : List Ref) → Reads (referenced h u refs)
  unfolding referenced monitor_debug_info group_debug_info
  referenced-Reads [] = Keeps-pure _
  referenced-Reads ((kind, id) ∷ rest) =
      Keeps-if (str_eq kind "monitor")
        (λ _.
          Keeps-bind _ (Keeps-bind _ (Keeps-select _) (λ m. monitor_info-Reads m))
            (λ info. Keeps-bind _ (referenced-Reads rest) (λ infos. Keeps-pure _)))
        (λ _.
          Keeps-if (str_eq kind "group")
            (λ _.
              Keeps-bind _ (Keeps-bind _ (Keeps-select _) (λ g. group_info-Reads g))
                (λ info. Keeps-bind _ (referenced-Reads rest) (λ infos. Keeps-pure _)))
            (λ _. referenced-Reads rest))

  build-Reads : (rule : Rule) → Reads (build h u rule)
  unfolding build
  build-Reads rule = Keeps-bind _ (decoded-Reads (h.decode_condition rule.condition)) (λ c.
      Keeps-bind _ (decoded-Reads (h.decode_actions rule.actions)) (λ actions.
        Keeps-bind _ (evaluate-Reads P h u none c) (λ a. Keeps-bind _ Keeps-utc_now (λ now.
          Keeps-bind _ (trace-Reads a.1 c) (λ t.
            Keeps-bind _ (referenced-Reads (extract h.parse_uuid c)) (λ infos.
              Keeps-bind _ (channels_used-Reads [] actions)
                (λ channels. Keeps-bind _ (Keeps-select _) (λ firings. Keeps-pure _))))))))

-- The snapshot for the debug panel only reads: whichever calls fail, it leaves the whole database
-- as it was.
pub build_unchanged :
    (h : Host) (u : Uuid) (rule : Rule) (w : World) → (run (build h u rule) w).1.db ≡ w.db
build_unchanged h u rule w =
    (Keeps-run (build-Reads (λ db. db ≡ w.db) h u rule) w (record { on_db = refl })).on_db
