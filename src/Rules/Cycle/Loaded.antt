-- ===== src/Rules/Cycle/Loaded.antt =====
-- rules/cycle.rs, `check_no_cycle`: the rules and groups that the check is made on.
use myccmonitor.Prelude.{
  ℕ, ◌≡◌, refl, ap, subst, ◌∙◌, Bool, Option, none, some, List, [], ◌∷◌, ◌==◌, filter,
  if◌then◌else◌, Bool-cases, inl, inr,
}
use myccmonitor.Json.{Uuid}
use myccmonitor.Error.{decode, Result, ok, err}
use myccmonitor.World.{tick}
use myccmonitor.World.Post.{
  Ends, Unchanged, Ends-pure, Ends-throw, Ends-select, Ends-bind, Ends-atomic, Ends-weaken,
}
use myccmonitor.Host.{Host}
use myccmonitor.Store.Rows.{Monitor, MonitorGroup, Rule}
use myccmonitor.Store.Tables.{Db}
use myccmonitor.Store.Monitors.{list_for_user}
use myccmonitor.Store.Groups.{manual_members}
use myccmonitor.Groups.Rollup.{view_of}
use myccmonitor.Rules.Fetch.{compute_view}
use myccmonitor.Rules.Exec.{decoded}
use myccmonitor.Rules.Cycle.{
  PendingRule, Specs, Covers, Edge, insert_spec, check_graph, is_pending, spec_of, load_rules,
  load_groups, pending_id, check_no_cycle, lift,
}

abbrev bind_option : {A B : Type 0} → Option A → (A → Option B) → Option B
bind_option none f = none
bind_option (some a) f = f a

-- The id under which the pending rule enters the graph: its own, or one that was drawn.
abbrev pub IsIdOf : Host → Option Uuid → Uuid → Type 0
IsIdOf h none id = (n : ℕ) × (id ≡ h.new_v4 n)
IsIdOf h (some p) id = id ≡ p

module _ (is_cyclic_directed : List Uuid → List Edge → Bool) (h : Host) where
  -- What the rules but the pending one read and write, where all of them can be decoded.
  abbrev pub loaded : Option Uuid → List Rule → Specs → Option Specs
  loaded pending [] rules = some rules
  loaded pending (r ∷ rs) rules =
      if is_pending is_cyclic_directed h pending r.id
      then loaded pending rs rules
      else bind_option (h.decode_condition r.condition) (λ condition.
        bind_option (h.decode_actions r.actions) (λ actions.
          loaded pending rs
            (insert_spec r.id (spec_of is_cyclic_directed h condition actions) rules)))

  -- The members of the groups.
  abbrev pub covers_of : Db → Uuid → List Monitor → List MonitorGroup → Covers
  covers_of db u ms [] = []
  covers_of db u ms (g ∷ gs) =
      (
        g.id,
        (view_of h.decode_auto_rules h.compile_regex u g (manual_members g.id db) ms).member_ids,
      )
      ∷ covers_of db u ms gs

  abbrev pub covers_for : Db → Uuid → Covers
  covers_for db u = covers_of db u (list_for_user u db) (filter (λ g. g.user_id == u) db.groups)

  -- With the rule that is saved.
  abbrev pub with_pending : PendingRule → Uuid → Specs → Specs
  with_pending p id rules =
      insert_spec id (spec_of is_cyclic_directed h p.condition p.actions) rules

  -- The pending rule among the others of the user makes a graph that passes.
  pub record Passes (db : Db) (u : Uuid) (p : PendingRule) : Type 0 where
    pub id : Uuid
    pub is_id : IsIdOf h p.id id
    pub rules : Specs
    pub are_loaded : loaded p.id (filter (λ r. r.user_id == u) db.rules) [] ≡ some rules
    pub passes : check_graph is_cyclic_directed (with_pending p id rules) (covers_for db u) ≡ ok tt

  module _ (before : Db) where
    decoded_ends :
        {A : Type 0} (o : Option A) → Ends before (decoded o) (Unchanged before (λ a. o ≡ some a))
    unfolding decoded
    decoded_ends none = Ends-throw before decode refl
    decoded_ends (some a) = Ends-pure before a refl

    load_rules_ends :
        (pending : Option Uuid) (rs : List Rule) (acc : Specs)
        → Ends before
            (load_rules is_cyclic_directed h pending rs acc)
            (Unchanged before (λ rules. loaded pending rs acc ≡ some rules))
    unfolding load_rules
    load_rules_ends pending [] acc = Ends-pure before acc refl
    load_rules_ends pending (r ∷ rs) acc =
        elim (Bool-cases (is_pending is_cyclic_directed h pending r.id)) [
          | inl y ↦ rw y (load_rules_ends pending rs acc)
          | inr n ↦ rw n (
              Ends-bind before _ (decoded_ends (h.decode_condition r.condition)) (λ x. refl)
                (λ condition e.
                  Ends-bind before _ (decoded_ends (h.decode_actions r.actions)) (λ x. refl)
                    (λ actions e'. rw (e, e') (load_rules_ends pending rs _))))
        ]

    abbrev members_of : Uuid → List Monitor → MonitorGroup → List Uuid
    members_of u ms g =
        (view_of h.decode_auto_rules h.compile_regex u g (manual_members g.id before) ms).member_ids

    compute_view_ends :
        (u : Uuid) (ms : List Monitor) (g : MonitorGroup)
        → Ends before
            (compute_view h u g ms)
            (Unchanged before (λ view. view.member_ids ≡ members_of u ms g))
    unfolding compute_view
    compute_view_ends u ms g =
        Ends-bind before {P = λ manual. manual ≡ manual_members g.id before} _
          (Ends-select before (manual_members g.id) refl) (λ x. refl)
          (λ manual e. Ends-pure before _ (rw e refl))

    load_groups_ends :
        (u : Uuid) (ms : List Monitor) (gs : List MonitorGroup)
        → Ends before
            (load_groups is_cyclic_directed h u ms gs)
            (Unchanged before (λ covers. covers ≡ covers_of before u ms gs))
    unfolding load_groups
    load_groups_ends u ms [] = Ends-pure before [] refl
    load_groups_ends u ms (g ∷ gs) =
        Ends-bind before _ (compute_view_ends u ms g) (λ x. refl)
          (λ view e.
            Ends-bind before _ (load_groups_ends u ms gs) (λ x. refl)
              (λ rest e'. Ends-pure before _ (rw (e, e') refl)))

    pending_id_ends :
        (o : Option Uuid)
        → Ends before (pending_id is_cyclic_directed h o) (Unchanged before (IsIdOf h o))
    unfolding pending_id
    pending_id_ends (some p) = Ends-pure before p refl
    pending_id_ends none =
        Ends-atomic before (λ w. (h.new_v4 w.ticks, tick w)) (λ w. (w.ticks, refl)) (λ w. refl)

    lift_ends :
        (r : Result (Unit {0}))
        → Ends before (lift is_cyclic_directed h r) (Unchanged before (λ _. r ≡ ok tt))
    lift_ends (ok _) = Ends-pure before tt refl
    lift_ends (err e) = Ends-throw before e refl

    pub check_no_cycle_ends :
        (u : Uuid) (p : PendingRule)
        → Ends before
            (check_no_cycle is_cyclic_directed h u p)
            (Unchanged before (λ _. Passes before u p))
    unfolding check_no_cycle
    check_no_cycle_ends u p =
        Ends-bind before {P = λ rs. rs ≡ filter (λ r. r.user_id == u) before.rules} _
          (Ends-select before (λ db. filter (λ r. r.user_id == u) db.rules) refl) (λ x. refl)
          (λ existing e1.
            Ends-bind before _ (load_rules_ends p.id existing []) (λ x. refl)
              (λ rules e2.
                Ends-bind before _ (pending_id_ends p.id) (λ x. refl)
                  (λ id e3.
                    Ends-bind before {P = λ gs. gs ≡ filter (λ g. g.user_id == u) before.groups} _
                      (Ends-select before (λ db. filter (λ g. g.user_id == u) db.groups) refl)
                      (λ x. refl)
                      (λ groups e4.
                        Ends-bind before {P = λ ms. ms ≡ list_for_user u before} _
                          (Ends-select before (list_for_user u) refl) (λ x. refl)
                          (λ ms e5.
                            Ends-bind before _ (load_groups_ends u ms groups) (λ x. refl)
                              (λ covers e6.
                                Ends-weaken before
                                  (lift_ends (
                                    check_graph is_cyclic_directed (with_pending p id rules)
                                      covers))
                                  (λ _ passes. record {
                                    id = id;
                                    is_id = e3;
                                    rules = rules;
                                    are_loaded = subst (λ rs. loaded p.id rs [] ≡ some rules) e1 e2;
                                    passes =
                                        subst
                                          (λ cs.
                                            check_graph is_cyclic_directed (with_pending p id rules)
                                              cs
                                            ≡ ok tt)
                                          (e6
                                            ∙ (ap (λ m. covers_of before u m groups) e5
                                                ∙ ap
                                                    (λ gs.
                                                      covers_of before u (list_for_user u before)
                                                        gs)
                                                    e4))
                                          passes;
                                  })))))))
