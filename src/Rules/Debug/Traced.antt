-- ===== src/Rules/Debug/Traced.antt =====
-- rules/debug.rs, `trace`: its verdicts are those of the condition without its durations.
use myccmonitor.Prelude.{◌≡◌, refl, sym, String, Bool, true, false, ◌&&◌, Option, none, some, List}
use myccmonitor.Json.{Uuid, Instant, Json}
use myccmonitor.Error.{Result, ok, err}
use myccmonitor.Task.{◌>>=◌, pure}
use myccmonitor.World.{Oracle, World}
use myccmonitor.World.Steady.{
  IsSteady, Answers, Answers-pure, Answers-bind, Answers-attempt, Answers-select,
}
use myccmonitor.Host.{Host}
use myccmonitor.Store.Rows.{Monitor, MonitorGroup}
use myccmonitor.Store.Tables.{Db}
use myccmonitor.Store.Monitors.{list_for_user}
use myccmonitor.Store.Groups.{find_group, manual_members}
use myccmonitor.Groups.Rollup.{view_of}
use myccmonitor.Rules.Condition.{
  CompOp, and, or, DurationSpec, Condition, comparison, logical, Children, no_child, child,
}
use myccmonitor.Rules.Field.{FieldRef, monitor, group, GroupProp, FieldValue}
use myccmonitor.Rules.Fetch.{Cache, compute_view, group_value}
use myccmonitor.Rules.Evaluator.Meaning.{
  group_field, field_value, duration_met, comparison_holds, holds, all_hold, any_holds, IsFresh,
}
use myccmonitor.Rules.Evaluator.Meaning.Refinement.{user_monitors_answers, fetch_monitor_answers}
use myccmonitor.Rules.Debug.{
  Trace, Traces, verdict_of, all_verdicts, any_verdict, kept_view, kept_group, fetch_kept,
  trace_field, trace, trace_children,
}

abbrev mutual
  -- The condition without the durations of its comparisons.
  pub undated : Condition → Condition
  undated (comparison field op expected d) = comparison field op expected none
  undated (logical op cs) = logical op (undated_all cs)

  pub undated_all : Children → Children
  undated_all no_child = no_child
  undated_all (child c cs) = child (undated c) (undated_all cs)

module _ (h : Host) (u : Uuid) (db : Db) (now : Instant) (o : Oracle)
    (steady : IsSteady o now) where
  abbrev Fetched : FieldValue → Result FieldValue × Cache → Type 0
  Fetched v (r, cache) = (r ≡ ok v) × IsFresh h u db now cache

  view_answers :
      (prop : GroupProp) (g : MonitorGroup) (ms : List Monitor)
      → ms ≡ list_for_user u db
      → Answers db o
          (compute_view h u g ms >>= λ view. pure (group_value h prop view))
          (λ v. v ≡ group_field h u db now (some g) prop)
  unfolding compute_view group_field
  view_answers prop g ms e =
      Answers-bind db o
        {P = λ v.
          v
          ≡ view_of h.decode_auto_rules h.compile_regex u g (manual_members g.id db)
              (list_for_user u db)}
        _ _
        (Answers-bind db o _ _
          (Answers-select db o steady (λ is. is ≡ manual_members g.id db) _ refl)
          (λ is e'. Answers-pure db o _ _ (rw (e, e') refl)))
        (λ v e'. Answers-pure db o _ _ (rw e' refl))

  kept_view_answers :
      (prop : GroupProp) (g : MonitorGroup) (cache : Cache) (r : Result (List Monitor))
      → (ms : List Monitor) × ((r ≡ ok ms) × (ms ≡ list_for_user u db))
      → Answers db o (kept_view h u prop g cache r) (Fetched (group_field h u db now (some g) prop))
  unfolding kept_view
  kept_view_answers prop g cache r (ms, (e, fresh)) = rw e (
      Answers-bind db o _ _ (Answers-attempt db o (view_answers prop g ms fresh))
        (λ v (a, (e', q)). Answers-pure db o _ _ (rw (e', q) refl, fresh)))

  kept_group_answers :
      (prop : GroupProp) (cache : Cache) (g : Option MonitorGroup)
      → IsFresh h u db now cache
      → Answers db o (kept_group h u prop cache (ok g)) (Fetched (group_field h u db now g prop))
  unfolding kept_group group_field
  kept_group_answers prop cache none good = Answers-pure db o _ _ (refl, good)
  kept_group_answers prop cache (some g) good =
      Answers-bind db o _ _
        (Answers-attempt db o (user_monitors_answers h u db now o steady cache good))
        (λ ms q. kept_view_answers prop g cache ms q)

  fetch_kept_answers :
      (cache : Cache) (r : FieldRef)
      → IsFresh h u db now cache
      → Answers db o (fetch_kept h u cache r) (Fetched (field_value h u db now r))
  unfolding fetch_kept field_value
  fetch_kept_answers cache (monitor id prop) good =
      Answers-bind db o _ _
        (Answers-attempt db o (fetch_monitor_answers h u db now o steady id prop))
        (λ v (a, (e, q)). Answers-pure db o _ _ (rw (e, q) refl, good))
  fetch_kept_answers cache (group id prop) good =
      Answers-bind db o _ _
        (Answers-attempt db o (Answers-select db o steady (λ g. g ≡ find_group u id db) _ refl))
        (λ g (a, (e, q)). rw (e, q) (kept_group_answers prop cache (find_group u id db) good))

  abbrev Verdict : Bool → Trace × Cache → Type 0
  Verdict b (t, cache) = (verdict_of t ≡ b) × IsFresh h u db now cache

  abbrev Verdicts : Children → Traces × Cache → Type 0
  Verdicts cs (ts, cache) =
      (all_verdicts ts ≡ all_hold h u db now cs)
      × ((any_verdict ts ≡ any_holds h u db now cs) × IsFresh h u db now cache)

  and_true : (b : Bool) → (b && true) ≡ b
  and_true true = refl
  and_true false = refl

  trace_field_answers :
      (cache : Cache) (field : String) (op : CompOp) (expected : Json) (d : Option DurationSpec)
      (r : Result FieldRef)
      → IsFresh h u db now cache
      → Answers db o
          (trace_field h u cache field op expected d r)
          (Verdict (comparison_holds h u db now r op expected none))
  unfolding trace_field comparison_holds duration_met
  trace_field_answers cache field op expected d (err e) good = Answers-pure db o _ _ (refl, good)
  trace_field_answers cache field op expected d (ok r) good =
      Answers-bind db o _ _ (fetch_kept_answers cache r good)
        (λ (v, cache') q. Answers-pure db o _ _ (rw q.0 (sym (and_true _)), q.1))

  mutual
    unfolding trace trace_children holds all_hold any_holds

    trace_answers :
        (cache : Cache) (c : Condition)
        → IsFresh h u db now cache
        → Answers db o (trace h u cache c) (Verdict (holds h u db now (undated c)))
    trace_answers cache (comparison field op expected d) good =
        trace_field_answers cache field op expected d _ good
    trace_answers cache (logical and cs) good =
        Answers-bind db o _ _ (trace_children_answers cache cs good)
          (λ a q. Answers-pure db o _ _ (q.0, q.1.1))
    trace_answers cache (logical or cs) good =
        Answers-bind db o _ _ (trace_children_answers cache cs good)
          (λ a q. Answers-pure db o _ _ (q.1.0, q.1.1))

    trace_children_answers :
        (cache : Cache) (cs : Children)
        → IsFresh h u db now cache
        → Answers db o (trace_children h u cache cs) (Verdicts (undated_all cs))
    trace_children_answers cache no_child good = Answers-pure db o _ _ (refl, (refl, good))
    trace_children_answers cache (child c cs) good =
        Answers-bind db o _ _ (trace_answers cache c good) (λ a q.
          Answers-bind db o _ _ (trace_children_answers a.1 cs q.1)
            (λ b r. Answers-pure db o _ _ (rw (q.0, r.0) refl, (rw (q.0, r.1.0) refl, r.1.1))))
