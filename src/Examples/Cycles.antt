-- ===== src/Examples/Cycles.antt =====
-- rules/cycle.rs on a set of two rules, with a test for cycles that passes only the graphs whose
-- edges go up.
use myccmonitor.Prelude.{
  ◌<◌, ◌≡◌, refl, Bool, true, not, ◌&&◌, List, [], ◌∷◌, ltb, all, arith, Bool-cases, inl, inr, ◌==◌,
}
use myccmonitor.Json.{Uuid}
use myccmonitor.Error.{ok}
use myccmonitor.Rules.Cycle.{Specs, Covers, Edge, check_graph}
use myccmonitor.Rules.Cycle.Acyclic.{has_edge, feeds, Reaches, one, more, check_graph-acyclic}

abbrev goes_up : List Edge → Bool
goes_up es = all (λ e. ltb e.0 e.1) es

abbrev pub not_upward : List Uuid → List Edge → Bool
not_upward nodes es = not (goes_up es)

edge_up : (es : List Edge) (a b : Uuid) → goes_up es ≡ true → has_edge es a b ≡ true → a < b
edge_up [] a b up e = cc
edge_up ((x, y) ∷ es) a b up e = elim (Bool-cases (ltb x y)) [
  | inr n ↦ cc (rw n at up)
  | inl l ↦ elim (Bool-cases ((x == a) && (y == b))) [
    | inl m ↦ ground arith
    | inr n ↦ edge_up es a b (rw l at up) (rw n at e)
  ]
]

path_up : (es : List Edge) {a b : Uuid} → goes_up es ≡ true → Reaches (has_edge es) a b → a < b
path_up es up (one {a} {b} e) = edge_up es a b up e
path_up es up (more {a} {b} e rest) = omega (arith, edge_up es a b up e, path_up es up rest)

pub not_upward-finds :
    (nodes : List Uuid) (es : List Edge) (a : Uuid)
    → Reaches (has_edge es) a a
    → not_upward nodes es ≡ true
not_upward-finds nodes es a loop = elim (Bool-cases (goes_up es)) [
  | inl up ↦ absurd (omega (arith, path_up es up loop))
  | inr n ↦ rw n refl
]

-- Rule 1 writes monitor 10, which is in group 20; rule 2 watches the group.
abbrev two_rules : Specs
two_rules =
    (1, record { deps = []; writes = 10 ∷ [] })
    ∷ (2, record { deps = ("group", 20) ∷ []; writes = [] })
    ∷ []

abbrev one_group : Covers
one_group = (20, 10 ∷ []) ∷ []

two_rules_pass : check_graph not_upward two_rules one_group ≡ ok tt
unfolding check_graph
two_rules_pass = refl

check_graph-acyclic_example : ¬ Reaches (feeds two_rules one_group) 1 1
check_graph-acyclic_example =
    check_graph-acyclic not_upward two_rules one_group not_upward-finds two_rules_pass 1
