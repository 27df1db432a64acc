-- ===== src/Rules/Cycle.antt =====
-- rules/cycle.rs: the graph of a user's rules, with an edge from a rule that writes a monitor to
-- each other rule that watches it, and the test for cycles when a rule is saved. Maps are lists of
-- pairs; `petgraph::algo::is_cyclic_directed` is an argument, on nodes and edges.
pub mod Acyclic
pub mod Loaded
use myccmonitor.Prelude.{
  ℕ, String, Bool, true, false, not, ◌&&◌, Option, none, some, List, [], ◌∷◌, ◌++◌, if◌then◌else◌,
  ◌==◌, str_eq, filter, find, map, contains,
}
use myccmonitor.Json.{Uuid}
use myccmonitor.Error.{Error, dependency_cycle, Result, ok, err}
use myccmonitor.Task.{◌>>=◌, ◌>>◌, pure, throw, atomic}
use myccmonitor.World.{World, Async, tick, select}
use myccmonitor.Host.{Host}
use myccmonitor.Store.Rows.{Monitor, MonitorGroup, Rule}
use myccmonitor.Store.Tables.{Db}
use myccmonitor.Store.Monitors.{list_for_user}
use myccmonitor.Rules.Condition.{Condition, Action, set_monitor_state}
use myccmonitor.Rules.Fetch.{compute_view}
use myccmonitor.Rules.Dependencies.{Ref, extract}
use myccmonitor.Rules.Exec.{decoded}

pub record PendingRule : Type 0 where
  pub id : Option Uuid
  pub condition : Condition
  pub actions : List Action

pub record RuleSpec : Type 0 where
  pub deps : List Ref
  pub writes : List Uuid

abbrev pub Specs : Type 0
Specs = List (Uuid × RuleSpec)

abbrev pub Covers : Type 0
Covers = List (Uuid × List Uuid)

unfoldable pub writes_of : List Action → List Uuid
writes_of [] = []
writes_of (set_monitor_state target s message ack ∷ rest) = target ∷ writes_of rest
writes_of (a ∷ rest) = writes_of rest

-- `HashMap::insert`
unfoldable pub insert_spec : Uuid → RuleSpec → Specs → Specs
insert_spec id spec rules = (id, spec) ∷ filter (λ r. not (r.0 == id)) rules

-- The monitors that a reference stands for; a group that is not there has none.
abbrev pub covered_by : Option (Uuid × List Uuid) → List Uuid
covered_by none = []
covered_by (some g) = g.1

unfoldable pub watched : Covers → Ref → List Uuid
watched groups (kind, ref_id) =
    if str_eq kind "monitor"
    then ref_id ∷ []
    else if str_eq kind "group"
    then covered_by (find (λ g. g.0 == ref_id) groups)
    else []

-- `by_write_target.get(&mid)`
unfoldable pub writers_of : Uuid → Specs → List Uuid
writers_of mid [] = []
writers_of mid ((rid, spec) ∷ rules) =
    let rest = writers_of mid rules in if contains spec.writes mid then rid ∷ rest else rest

abbrev pub Edge : Type 0
Edge = Uuid × Uuid

-- The innermost loop: `if writer == rid { continue; }`.
unfoldable pub edges_from : Uuid → List Uuid → List Edge
edges_from rid [] = []
edges_from rid (writer ∷ rest) =
    let es = edges_from rid rest in if writer == rid then es else (writer, rid) ∷ es

unfoldable pub edges_at : Specs → Uuid → List Uuid → List Edge
unfolding edges_from writers_of
edges_at rules rid [] = []
edges_at rules rid (mid ∷ mids) = edges_from rid (writers_of mid rules) ++ edges_at rules rid mids

unfoldable pub edges_of : Specs → Covers → Uuid → List Ref → List Edge
unfolding edges_at watched
edges_of rules groups rid [] = []
edges_of rules groups rid (dep ∷ deps) =
    edges_at rules rid (watched groups dep) ++ edges_of rules groups rid deps

-- The loop over the rules, all of them in `rules`.
unfoldable pub edges_into : Specs → Covers → Specs → List Edge
unfolding edges_of
edges_into rules groups [] = []
edges_into rules groups ((rid, spec) ∷ rest) =
    edges_of rules groups rid spec.deps ++ edges_into rules groups rest

module _ (is_cyclic_directed : List Uuid → List Edge → Bool) where
  unfoldable pub check_graph : Specs → Covers → Result (Unit {0})
  unfolding edges_into
  check_graph rules groups =
      if is_cyclic_directed (map (λ r. r.0) rules) (edges_into rules groups rules)
      then err dependency_cycle
      else ok tt

  module _ (h : Host) where
    abbrev pub is_pending : Option Uuid → Uuid → Bool
    is_pending none id = false
    is_pending (some p) id = id == p

    unfoldable pub spec_of : Condition → List Action → RuleSpec
    unfolding writes_of
    spec_of condition actions = record {
      deps = extract h.parse_uuid condition;
      writes = writes_of actions;
    }

    unfoldable pub load_rules : Option Uuid → List Rule → Specs → Async Specs
    unfolding insert_spec spec_of
    load_rules pending [] rules = pure rules
    load_rules pending (r ∷ rs) rules =
        if is_pending pending r.id then load_rules pending rs rules else (do
          condition ← decoded (h.decode_condition r.condition)
          actions ← decoded (h.decode_actions r.actions)
          load_rules pending rs (insert_spec r.id (spec_of condition actions) rules))

    unfoldable pub load_groups : Uuid → List Monitor → List MonitorGroup → Async Covers
    load_groups user_id monitors [] = pure []
    load_groups user_id monitors (g ∷ gs) = do
      view ← compute_view h user_id g monitors
      rest ← load_groups user_id monitors gs
      pure ((g.id, view.member_ids) ∷ rest)

    -- `pending.id.unwrap_or_else(Uuid::new_v4)`
    unfoldable pub pending_id : Option Uuid → Async Uuid
    pending_id (some id) = pure id
    pending_id none = atomic (λ w. (ok (h.new_v4 w.ticks), tick w))

    abbrev pub lift : Result (Unit {0}) → Async (Unit {0})
    lift (ok _) = pure tt
    lift (err e) = throw e

    unfoldable pub check_no_cycle : Uuid → PendingRule → Async (Unit {0})
    unfolding load_rules load_groups pending_id check_graph
    check_no_cycle user_id pending = do
      existing ← select (λ db. filter (λ r. r.user_id == user_id) db.rules)
      rules ← load_rules pending.id existing []
      id ← pending_id pending.id
      groups ← select (λ db. filter (λ g. g.user_id == user_id) db.groups)
      monitors ← select (list_for_user user_id)
      covers ← load_groups user_id monitors groups
      lift (check_graph (insert_spec id (spec_of pending.condition pending.actions) rules) covers)
