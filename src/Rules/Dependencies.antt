-- ===== src/Rules/Dependencies.antt =====
-- rules/dependencies.rs: the monitors and groups that a condition refers to. The `HashSet` is a
-- list without repetitions.
pub mod Complete
use myccmonitor.Prelude.{
  ℕ, String, Bool, Option, List, [], ◌∷◌, ◌&&◌, if◌then◌else◌, ◌==◌, str_eq, any,
}
use myccmonitor.Json.{Uuid}
use myccmonitor.Error.{Error, Result, ok, err}
use myccmonitor.Rules.Condition.{Condition, comparison, logical, Children, no_child, child}
use myccmonitor.Rules.Field.{FieldRef, parse, ref_pair}

abbrev pub Ref : Type 0
Ref = String × Uuid

abbrev pub ref_eq : Ref → Ref → Bool
ref_eq (k, i) (k', i') = str_eq k k' && (i == i')

-- `HashSet::insert`
unfoldable pub insert_ref : Ref → List Ref → List Ref
insert_ref p seen = if any (λ q. ref_eq p q) seen then seen else p ∷ seen

unfoldable pub walk_field : Result FieldRef → List Ref → List Ref
unfolding insert_ref ref_pair
walk_field (ok r) seen = insert_ref (ref_pair r) seen
walk_field (err e) seen = seen

module _ (parse_uuid : String → Option Uuid) where
  unfoldable mutual
    unfolding walk_field

    pub walk : Condition → List Ref → List Ref
    walk (comparison field operator value for_duration) seen =
        walk_field (parse parse_uuid field) seen
    walk (logical op children) seen = walk_children children seen

    pub walk_children : Children → List Ref → List Ref
    walk_children no_child seen = seen
    walk_children (child c cs) seen = walk_children cs (walk c seen)

  unfoldable pub extract : Condition → List Ref
  unfolding walk
  extract condition = walk condition []
