-- ===== src/Rules/Evaluator/Meaning/Refinement.antt =====
-- rules/field.rs and rules/evaluator.rs against the meaning of a condition.
use myccmonitor.Prelude.{
  ℕ, ◌≤◌, ◌≡◌, refl, sym, String, Bool, true, false, not, ◌&&◌, Option, none, some, str_eq,
}
use myccmonitor.Prelude.Int.{ℤ}
use myccmonitor.Json.{Uuid, Instant, Json}
use myccmonitor.Error.{Result, ok, err}
use myccmonitor.Task.{◌>>=◌, run}
use myccmonitor.World.{Oracle, World, Async, select}
use myccmonitor.World.Steady.{
  IsSteady, Answers, Answers-pure, Answers-bind, Answers-if, Answers-select, Answers-utc_now,
}
use myccmonitor.Host.{Host}
use myccmonitor.Store.Rows.{Monitor, HistoryRow, MonitorGroup}
use myccmonitor.Store.Tables.{Db}
use myccmonitor.Store.Monitors.{find_by_id_for_user, list_for_user, latest_owned_change}
use myccmonitor.Store.Readings.{keep_n_per_metric, latest_reading, recent_readings}
use myccmonitor.Store.Groups.{find_group, manual_members}
use myccmonitor.Groups.Rollup.{view_of}
use myccmonitor.Rules.Condition.{
  CompOp, eq, neq, and, or, DurationSpec, Condition, comparison, logical, Children, no_child, child,
}
use myccmonitor.Rules.Field.{MonitorProp, GroupProp, FieldRef, monitor, group}
use myccmonitor.Rules.Fetch.{
  Cache, user_monitors, latest_value, fetch_monitor, compute_view, fetch_found_group, fetch_group,
  fetch, held_since, state_held_for,
}
use myccmonitor.Rules.Evaluator.Compare.{compare}
use myccmonitor.Rules.Evaluator.Held.{max_seconds}
use myccmonitor.Rules.Evaluator.Evaluate.{
  state_check, metric_check, time_check, check_duration, evaluate_field, evaluate, evaluate_all,
  evaluate_any,
}
use myccmonitor.Rules.Evaluator.Meaning.{
  metric_field, monitor_field, group_field, field_value, state_held, metric_held_for,
  state_held_for_op, held_for, duration_met, comparison_holds, holds, all_hold, any_holds, IsFresh,
  Gives, Fetches,
}

stops : (b x y : Bool) → b ≡ x → not b ≡ true → false ≡ (x && y)
stops true true y e e' = cc
stops true false y e e' = refl
stops false true y e e' = cc
stops false false y e e' = refl

goes : (b x : Bool) → b ≡ x → not b ≡ false → x ≡ true
goes true x e e' = sym e
goes false x e e' = cc

module _ (h : Host) (u : Uuid) (db : Db) (now : Instant) (o : Oracle)
    (steady : IsSteady o now) where
  pub user_monitors_answers :
      (cache : Cache)
      → IsFresh h u db now cache
      → Answers db o (user_monitors u cache) (λ ms. ms ≡ list_for_user u db)
  unfolding user_monitors
  user_monitors_answers none good = Answers-select db o steady _ _ refl
  user_monitors_answers (some ms) good = Answers-pure db o _ ms good

  latest_value_answers :
      (id : Uuid) (key : Option String)
      → Answers db o (latest_value id key) (λ v. v ≡ metric_field h u db now id key)
  unfolding latest_value metric_field
  latest_value_answers id none = Answers-pure db o _ _ refl
  latest_value_answers id (some key) =
      Answers-bind db o _ _ (Answers-select db o steady (λ r. r ≡ latest_reading id key db) _ refl)
        (λ r e. Answers-pure db o _ _ (rw e refl))

  found :
      {A : Type 0} {Q : A → Type 0} {g : Option Monitor → Async A} (id : Uuid)
      → ((m : Option Monitor) → m ≡ find_by_id_for_user u id db → Answers db o (g m) Q)
      → Answers db o (select (find_by_id_for_user u id) >>= g) Q
  found {Q} {g} id hg = Answers-bind db o Q g (Answers-select db o steady _ _ refl) hg

  pub fetch_monitor_answers :
      (id : Uuid) (prop : MonitorProp)
      → Answers db o (fetch_monitor u id prop) (λ v. v ≡ monitor_field h u db now id prop)
  unfolding fetch_monitor monitor_field
  fetch_monitor_answers id MonitorProp.state = found id (λ m e. Answers-pure db o _ _ (rw e refl))
  fetch_monitor_answers id MonitorProp.message = found id (λ m e. Answers-pure db o _ _ (rw e refl))
  fetch_monitor_answers id MonitorProp.acknowledged =
      found id (λ m e. Answers-pure db o _ _ (rw e refl))
  fetch_monitor_answers id MonitorProp.cpu = latest_value_answers id _
  fetch_monitor_answers id MonitorProp.mem = latest_value_answers id _
  fetch_monitor_answers id MonitorProp.disk = latest_value_answers id _
  fetch_monitor_answers id MonitorProp.net_in = latest_value_answers id _
  fetch_monitor_answers id MonitorProp.net_out = latest_value_answers id _

  found_group_answers :
      (cache : Cache) (prop : GroupProp) (g : Option MonitorGroup)
      → IsFresh h u db now cache
      → Answers db o
          (fetch_found_group h u cache prop g)
          (Fetches h u db now (group_field h u db now g prop))
  unfolding fetch_found_group compute_view group_field
  found_group_answers cache prop none good = Answers-pure db o _ _ (refl, good)
  found_group_answers cache prop (some g) good =
      Answers-bind db o _ _ (user_monitors_answers cache good) (λ ms e.
        Answers-bind db o
          {P = λ v.
            v
            ≡ view_of h.decode_auto_rules h.compile_regex u g (manual_members g.id db)
                (list_for_user u db)}
          _ _
          (Answers-bind db o _ _
            (Answers-select db o steady (λ is. is ≡ manual_members g.id db) _ refl)
            (λ is e'. Answers-pure db o _ _ (rw (e, e') refl)))
          (λ v e'. Answers-pure db o _ _ (rw e' refl, e)))

  fetch_answers :
      (cache : Cache) (r : FieldRef)
      → IsFresh h u db now cache
      → Answers db o (fetch h u cache r) (Fetches h u db now (field_value h u db now r))
  unfolding fetch fetch_group field_value
  fetch_answers cache (monitor id prop) good =
      Answers-bind db o _ _ (fetch_monitor_answers id prop) (λ v e. Answers-pure db o _ _ (e, good))
  fetch_answers cache (group id prop) good =
      Answers-bind db o _ _ (Answers-select db o steady (λ g. g ≡ find_group u id db) _ refl)
        (λ g e. rw (sym e) (found_group_answers cache prop g good))

  held_since_answers :
      (r : Option HistoryRow) (s : String) (seconds : ℤ)
      → Answers db o (held_since r s seconds) (λ b. b ≡ state_held h u db now r s seconds)
  unfolding held_since state_held
  held_since_answers none s seconds = Answers-pure db o _ _ refl
  held_since_answers (some r) s seconds =
      Answers-if db o _ (str_eq r.state s)
        (λ e.
          Answers-bind db o _ _ (Answers-utc_now db o steady (λ t. t ≡ now) refl)
            (λ t e'. Answers-pure db o _ _ (rw (e, e') refl)))
        (λ e. Answers-pure db o _ _ (rw e refl))

  state_held_answers :
      (id : Uuid) (s : String) (seconds : ℤ)
      → Answers db o
          (state_held_for u id s seconds)
          (λ b. b ≡ state_held h u db now (latest_owned_change u id db) s seconds)
  unfolding state_held_for
  state_held_answers id s seconds =
      Answers-bind db o _ _
        (Answers-select db o steady (λ r. r ≡ latest_owned_change u id db) _ refl)
        (λ r e. rw (sym e) (held_since_answers r s seconds))

  state_check_answers :
      (id : Uuid) (op : CompOp) (expected : Json) (seconds : ℤ)
      → Answers db o
          (state_check h u id op expected seconds)
          (λ b. b ≡ state_held_for_op h u db now id op expected seconds)
  unfolding state_check state_held_for_op
  state_check_answers id eq (Json.string s) seconds = state_held_answers id s seconds
  state_check_answers id neq (Json.string s) seconds =
      Answers-bind db o _ _ (state_held_answers id s seconds)
        (λ b e. Answers-pure db o _ _ (rw e refl))
  state_check_answers id op expected seconds = Answers-pure db o _ _ refl

  metric_check_answers :
      (id : Uuid) (name : Option String) (op : CompOp) (expected : Json) (seconds : ℤ)
      → Answers db o
          (metric_check h u id name op expected seconds)
          (λ b. b ≡ metric_held_for h u db now id name op expected seconds)
  unfolding metric_check metric_held_for
  metric_check_answers id none op expected seconds = Answers-pure db o _ _ refl
  metric_check_answers id (some name) op expected seconds =
      Answers-bind db o _ _
        (Answers-select db o steady (λ rs. rs ≡ recent_readings id name keep_n_per_metric db) _
          refl)
        (λ rs e.
          Answers-bind db o _ _ (Answers-utc_now db o steady (λ t. t ≡ now) refl)
            (λ t e'. Answers-pure db o _ _ (rw (e, e') refl)))

  time_check_answers :
      (r : FieldRef) (op : CompOp) (expected : Json) (seconds : ℤ)
      → Answers db o
          (time_check h u r op expected seconds)
          (λ b. b ≡ held_for h u db now r op expected seconds)
  unfolding time_check held_for
  time_check_answers (monitor id MonitorProp.state) op expected seconds =
      state_check_answers id op expected seconds
  time_check_answers (monitor id prop) op expected seconds =
      metric_check_answers id _ op expected seconds
  time_check_answers (group id prop) op expected seconds = Answers-pure db o _ _ refl

  check_duration_answers :
      (r : FieldRef) (op : CompOp) (expected : Json) (d : Option DurationSpec)
      → Answers db o
          (check_duration h u r op expected d)
          (λ b. b ≡ duration_met h u db now r op expected d)
  unfolding check_duration duration_met
  check_duration_answers r op expected none = Answers-pure db o _ _ refl
  check_duration_answers r op expected (some d) = time_check_answers r op expected _

  evaluate_field_answers :
      (cache : Cache) (r : Result FieldRef) (op : CompOp) (expected : Json)
      (d : Option DurationSpec)
      → IsFresh h u db now cache
      → Answers db o
          (evaluate_field h u cache r op expected d)
          (Gives h u db now (comparison_holds h u db now r op expected d))
  unfolding evaluate_field comparison_holds
  evaluate_field_answers cache (err e) op expected d good = Answers-pure db o _ _ (refl, good)
  evaluate_field_answers cache (ok r) op expected d good =
      Answers-bind db o _ _ (fetch_answers cache r good) (λ a e.
        Answers-if db o _ (not (compare h a.0 op expected))
          (λ e'. Answers-pure db o _ _ (
            stops (compare h a.0 op expected) (compare h (field_value h u db now r) op expected)
                (duration_met h u db now r op expected d) (rw e.0 refl) e',
            e.1,
          ))
          (λ e'. Answers-bind db o _ _ (check_duration_answers r op expected d) (λ b e''.
            Answers-pure db o _ _ (
              rw
                  (
                    e'',
                    goes (compare h a.0 op expected)
                        (compare h (field_value h u db now r) op expected) (rw e.0 refl) e',
                  )
                  refl,
              e.1,
            ))))

  -- Where no call fails and the clock stands still, an evaluation with an empty or a fresh cache
  -- ends, changes nothing but the time, and answers whether the condition holds.
  mutual
    unfolding evaluate evaluate_all evaluate_any holds all_hold any_holds

    pub evaluate_answers :
        (cache : Cache) (c : Condition)
        → IsFresh h u db now cache
        → Answers db o (evaluate h u cache c) (Gives h u db now (holds h u db now c))
    evaluate_answers cache (comparison field op expected d) good =
        evaluate_field_answers cache _ op expected d good
    evaluate_answers cache (logical and cs) good = evaluate_all_answers cache cs good
    evaluate_answers cache (logical or cs) good = evaluate_any_answers cache cs good

    evaluate_all_answers :
        (cache : Cache) (cs : Children)
        → IsFresh h u db now cache
        → Answers db o (evaluate_all h u cache cs) (Gives h u db now (all_hold h u db now cs))
    evaluate_all_answers cache no_child good = Answers-pure db o _ _ (refl, good)
    evaluate_all_answers cache (child c cs) good =
        Answers-bind db o _ _ (evaluate_answers cache c good) (λ a e.
          Answers-if db o _ (not a.0) (λ e'. Answers-pure db o _ _ (stops a.0 _ _ e.0 e', e.1))
            (λ e'. rw (goes a.0 (holds h u db now c) e.0 e') (evaluate_all_answers a.1 cs e.1)))

    evaluate_any_answers :
        (cache : Cache) (cs : Children)
        → IsFresh h u db now cache
        → Answers db o (evaluate_any h u cache cs) (Gives h u db now (any_holds h u db now cs))
    evaluate_any_answers cache no_child good = Answers-pure db o _ _ (refl, good)
    evaluate_any_answers cache (child c cs) good =
        Answers-bind db o _ _ (evaluate_answers cache c good) (λ a e.
          Answers-if db o _ a.0 (λ e'. Answers-pure db o _ _ (rw (sym e.0, e') refl, e.1))
            (λ e'. rw (sym e.0, e') (evaluate_any_answers a.1 cs e.1)))

-- Every duration in the condition is one on which `chrono` does not panic.
unfoldable mutual
  pub HasDurations : Condition → Type 0
  HasDurations (comparison field op expected none) = Unit
  HasDurations (comparison field op expected (some d)) = d.seconds ≤ max_seconds
  HasDurations (logical op cs) = HaveDurations cs

  pub HaveDurations : Children → Type 0
  HaveDurations no_child = Unit
  HaveDurations (child c cs) = HasDurations c × HaveDurations cs

pub evaluate-holds :
    (h : Host) (u : Uuid) (now : Instant) (c : Condition) (w : World)
    → IsSteady w.oracle now
    → HasDurations c
    → (n : ℕ) × ((cache : Cache) × (run (evaluate h u none c) w
          ≡ (ok (holds h u w.db now c, cache), record w { ticks = n })))
evaluate-holds h u now c w steady _ =
    let (n, (a, (e, q))) =
      (evaluate_answers h u w.db now w.oracle steady none c tt).answer w.ticks w.in_flight in
    (n, (a.1, rw (sym q.0) e))
