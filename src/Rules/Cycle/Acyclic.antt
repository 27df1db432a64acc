-- ===== src/Rules/Cycle/Acyclic.antt =====
-- rules/cycle.rs: the edges are the pairs of rules that feed each other, and a set of rules that
-- passes has no loop of them.
use myccmonitor.Prelude.{
  ◌≡◌, refl, ◌∙◌, Bool, true, false, not, ◌&&◌, ◌||◌, List, [], ◌∷◌, ◌++◌, map, ◌==◌, any, contains,
  arith, Bool-cases, inl, inr,
}
use myccmonitor.Json.{Uuid}
use myccmonitor.Error.{ok}
use myccmonitor.Rules.Dependencies.{Ref}
use myccmonitor.Rules.Cycle.{
  Specs, Covers, Edge, watched, writers_of, edges_from, edges_at, edges_of, edges_into, check_graph,
}

abbrev pub has_edge : List Edge → Uuid → Uuid → Bool
has_edge es a b = any (λ e. (e.0 == a) && (e.1 == b)) es

-- A rule of the set with the id writes the monitor.
abbrev pub writes_monitor : Specs → Uuid → Uuid → Bool
writes_monitor rules a mid = any (λ r. (r.0 == a) && contains r.1.writes mid) rules

-- Two different rules of the set: the first writes a monitor that the second watches, by itself or
-- in a group.
abbrev pub feeds : Specs → Covers → Uuid → Uuid → Bool
feeds rules groups a b =
    not (a == b)
    && any
        (λ r.
          (r.0 == b)
          && any (λ dep. any (λ mid. writes_monitor rules a mid) (watched groups dep)) r.1.deps)
        rules

-- One or more steps.
pub data Reaches (related : Uuid → Uuid → Bool) : Uuid → Uuid → Type 0 where
  one : {a b : Uuid} → related a b ≡ true → Reaches related a b
  more : {a b c : Uuid} → related a b ≡ true → Reaches related b c → Reaches related a c

or_assoc : (a b c : Bool) → (a || (b || c)) ≡ ((a || b) || c)
or_assoc true b c = refl
or_assoc false b c = refl

any-append :
    {A : Type 0} (p : A → Bool) (xs ys : List A) → any p (xs ++ ys) ≡ (any p xs || any p ys)
any-append p [] ys = refl
any-append p (x ∷ xs) ys = rw (any-append p xs ys) (or_assoc (p x) (any p xs) (any p ys))

any-writers_of :
    (a mid : Uuid) (rules : Specs)
    → any (λ x. x == a) (writers_of mid rules) ≡ writes_monitor rules a mid
unfolding writers_of
any-writers_of a mid [] = refl
any-writers_of a mid ((rid, spec) ∷ rules) =
    let ih = any-writers_of a mid rules in
    elim (Bool-cases (contains spec.writes mid)) [
      | inl e ↦ ground (arith, ih)
      | inr e ↦ ground (arith, ih)
    ]

factor : (x y p q : Bool) → ((x && (y && p)) || (x && (y && q))) ≡ (x && (y && (p || q)))
factor true true p q = refl
factor true false p q = refl
factor false y p q = refl

swap_factor : (x y p q : Bool) → ((y && (x && p)) || (x && q)) ≡ (x && ((y && p) || q))
swap_factor true true p q = refl
swap_factor true false p q = refl
swap_factor false true p q = refl
swap_factor false false p q = refl

module _ (a b : Uuid) where
  has_edge-edges_from :
      (rid : Uuid) (ws : List Uuid)
      → has_edge (edges_from rid ws) a b ≡ ((rid == b) && (not (a == b) && any (λ x. x == a) ws))
  unfolding edges_from
  has_edge-edges_from rid [] = ground arith
  has_edge-edges_from rid (w ∷ ws) =
      let ih = has_edge-edges_from rid ws in
      elim (Bool-cases (w == rid)) [ inl e ↦ ground (arith, ih) | inr e ↦ ground (arith, ih) ]

  module _ (rules : Specs) where
    -- What the loops over the monitors, the references and the rules find.
    abbrev at_monitors : List Uuid → Bool
    at_monitors mids = any (λ mid. writes_monitor rules a mid) mids

    has_edge-edges_at :
        (rid : Uuid) (mids : List Uuid)
        → has_edge (edges_at rules rid mids) a b
          ≡ ((rid == b) && (not (a == b) && at_monitors mids))
    unfolding edges_at
    has_edge-edges_at rid [] = ground arith
    has_edge-edges_at rid (mid ∷ mids) =
        any-append (λ e. (e.0 == a) && (e.1 == b)) (edges_from rid (writers_of mid rules))
          (edges_at rules rid mids)
        ∙ (rw
            (
              has_edge-edges_from rid (writers_of mid rules),
              any-writers_of a mid rules,
              has_edge-edges_at rid mids,
            )
            (factor (rid == b) (not (a == b)) (writes_monitor rules a mid) (at_monitors mids)))

    module _ (groups : Covers) where
      abbrev at_refs : List Ref → Bool
      at_refs deps = any (λ dep. at_monitors (watched groups dep)) deps

      has_edge-edges_of :
          (rid : Uuid) (deps : List Ref)
          → has_edge (edges_of rules groups rid deps) a b
            ≡ ((rid == b) && (not (a == b) && at_refs deps))
      unfolding edges_of
      has_edge-edges_of rid [] = ground arith
      has_edge-edges_of rid (dep ∷ deps) =
          any-append (λ e. (e.0 == a) && (e.1 == b)) (edges_at rules rid (watched groups dep))
            (edges_of rules groups rid deps)
          ∙ (rw (has_edge-edges_at rid (watched groups dep), has_edge-edges_of rid deps)
              (factor (rid == b) (not (a == b)) (at_monitors (watched groups dep)) (at_refs deps)))

      has_edge-edges_into :
          (rest : Specs)
          → has_edge (edges_into rules groups rest) a b
            ≡ (not (a == b) && any (λ r. (r.0 == b) && at_refs r.1.deps) rest)
      unfolding edges_into
      has_edge-edges_into [] = ground arith
      has_edge-edges_into ((rid, spec) ∷ rest) =
          any-append (λ e. (e.0 == a) && (e.1 == b)) (edges_of rules groups rid spec.deps)
            (edges_into rules groups rest)
          ∙ (rw (has_edge-edges_of rid spec.deps, has_edge-edges_into rest)
              (swap_factor (not (a == b)) (rid == b) (at_refs spec.deps)
                (any (λ r. (r.0 == b) && at_refs r.1.deps) rest)))

-- The graph has an edge from one rule to another exactly where the first feeds the second.
pub edges_into-feeds :
    (rules : Specs) (groups : Covers) (a b : Uuid)
    → has_edge (edges_into rules groups rules) a b ≡ feeds rules groups a b
edges_into-feeds rules groups a b = has_edge-edges_into a b rules groups rules

Reaches-edges :
    (rules : Specs) (groups : Covers) {a b : Uuid}
    → Reaches (feeds rules groups) a b
    → Reaches (has_edge (edges_into rules groups rules)) a b
Reaches-edges rules groups (one {a} {b} e) = one (edges_into-feeds rules groups a b ∙ e)
Reaches-edges rules groups (more {a} {b} e rest) =
    more (edges_into-feeds rules groups a b ∙ e) (Reaches-edges rules groups rest)

-- A set of rules that passes the check has no loop: no rule feeds a second one, and that a third
-- one and so on, back to the first; if `is_cyclic_directed` answers true on every graph in which
-- some node reaches itself along edges.
pub check_graph-acyclic :
    (is_cyclic_directed : List Uuid → List Edge → Bool) (rules : Specs) (groups : Covers)
    → ((nodes : List Uuid) (es : List Edge) (a : Uuid)
        → Reaches (has_edge es) a a
        → is_cyclic_directed nodes es ≡ true)
    → check_graph is_cyclic_directed rules groups ≡ ok tt
    → (a : Uuid) → ¬ Reaches (feeds rules groups) a a
unfolding check_graph
check_graph-acyclic is_cyclic_directed rules groups finds passes a loop =
    let found =
      finds (map (λ r. r.0) rules) (edges_into rules groups rules) a
        (Reaches-edges rules groups loop) in
    cc (rw found at passes)
