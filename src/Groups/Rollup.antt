-- ===== src/Groups/Rollup.antt =====
-- groups/rollup.rs: the effective members of a group and its rolled-up state. The two parts that
-- are not the backend's are arguments: `serde_json::from_value::<AutoRules>(v).ok()` and
-- `Regex::new(p).ok()` with `is_match`.
pub mod Worst
pub mod Members
use myccmonitor.Prelude.{
  ℕ, ◌+◌, ◌%◌, String, Bool, true, false, ◌&&◌, Option, none, some, List, [], ◌∷◌, if◌then◌else◌,
  ◌==◌, leb, any, contains, str_eq,
}
use myccmonitor.Json.{Uuid, Json}
use myccmonitor.Store.Rows.{Monitor, MonitorGroup, AutoRules}

pub data RolledState : Type 0 where
  ok warning critical unknown : RolledState

unfoldable pub from_str : String → RolledState
from_str s =
    if str_eq s "ok"
    then ok
    else if str_eq s "warning"
    then warning
    else if str_eq s "critical"
    then critical
    else unknown

unfoldable pub merge : RolledState → RolledState → RolledState
merge critical _ = critical
merge ok critical = critical
merge warning critical = critical
merge unknown critical = critical
merge warning _ = warning
merge ok warning = warning
merge unknown warning = warning
merge ok _ = ok
merge unknown ok = ok
merge unknown unknown = unknown

pub record StateBreakdown : Type 0 where
  pub ok : ℕ
  pub warning : ℕ
  pub critical : ℕ
  pub unknown : ℕ
  pub total : ℕ

pub record GroupView : Type 0 where
  pub group : MonitorGroup
  pub member_ids : List Uuid
  pub rolled_state : RolledState
  pub state_breakdown : StateBreakdown

-- `u32 += 1`
abbrev pub succ32 : ℕ → ℕ
succ32 n = (n + 1) % 4294967296

abbrev pub no_states : StateBreakdown
no_states = record { ok = 0; warning = 0; critical = 0; unknown = 0; total = 0 }

unfoldable pub count_state : RolledState → StateBreakdown → StateBreakdown
count_state ok b = record b { ok = succ32 b.ok; total = succ32 b.total }
count_state warning b = record b { warning = succ32 b.warning; total = succ32 b.total }
count_state critical b = record b { critical = succ32 b.critical; total = succ32 b.total }
count_state unknown b = record b { unknown = succ32 b.unknown; total = succ32 b.total }

-- A `HashSet<Uuid>` is a list without repetitions.
unfoldable pub set_insert : Uuid → List Uuid → List Uuid
set_insert i s = if contains s i then s else i ∷ s

unfoldable pub set_of : List Uuid → List Uuid
set_of [] = []
set_of (i ∷ is) = set_insert i (set_of is)

-- `Vec::sort`
unfoldable pub insert_sorted : Uuid → List Uuid → List Uuid
insert_sorted i [] = i ∷ []
insert_sorted i (j ∷ js) = let rest = insert_sorted i js in if leb i j then i ∷ j ∷ js else j ∷ rest

unfoldable pub sort : List Uuid → List Uuid
sort [] = []
sort (i ∷ is) = insert_sorted i (sort is)

-- Whether the monitor of the loop over `user_monitors` reaches `effective.insert`.
unfoldable pub auto_matches : Uuid → Option (List String) → Option (String → Bool) → Monitor → Bool
auto_matches user kinds name_re m =
    (m.user_id == user)
    && (elim kinds [ none ↦ true | some ks ↦ any (λ k. str_eq k m.kind) ks ]
        && elim name_re [ none ↦ true | some is_match ↦ is_match m.display_name ])

unfoldable pub add_auto :
    Uuid → Option (List String) → Option (String → Bool) → List Monitor → List Uuid → List Uuid
add_auto user kinds name_re [] effective = effective
add_auto user kinds name_re (m ∷ ms) effective =
    add_auto user kinds name_re ms
      (if auto_matches user kinds name_re m then set_insert m.id effective else effective)

-- `name_re.is_some() || kinds.is_some()`
unfoldable pub has_auto : Option (List String) → Option (String → Bool) → Bool
has_auto none none = false
has_auto none (some _) = true
has_auto (some _) _ = true

-- The variables of the second loop.
pub record Tally : Type 0 where
  pub rolled : RolledState
  pub breakdown : StateBreakdown
  pub any_member : Bool

unfoldable pub tally : List Uuid → List Monitor → Tally → Tally
tally effective [] t = t
tally effective (m ∷ ms) t = tally effective ms (
    if contains effective m.id
    then record {
      rolled = merge t.rolled (from_str m.current_state);
      breakdown = count_state (from_str m.current_state) t.breakdown;
      any_member = true;
    }
    else t)

abbrev pub no_tally : Tally
no_tally = record { rolled = ok; breakdown = no_states; any_member = false }

unfoldable pub rollup : List Uuid → List Monitor → RolledState × StateBreakdown
rollup effective ms =
    let t = tally effective ms no_tally in
    ((if t.any_member then t.rolled else unknown), t.breakdown)

module _ (decode_auto_rules : Json → Option AutoRules)
    (compile_regex : String → Option (String → Bool)) where
  unfoldable pub auto_rules_of : MonitorGroup → Option AutoRules
  auto_rules_of g = elim g.auto_rules [ none ↦ none | some v ↦ decode_auto_rules v ]

  unfoldable pub pattern_of : Option AutoRules → Option (String → Bool)
  pattern_of none = none
  pattern_of (some r) = elim r.name_pattern [ none ↦ none | some p ↦ compile_regex p ]

  unfoldable pub kinds_of : Option AutoRules → Option (List String)
  kinds_of none = none
  kinds_of (some r) = r.kinds

  unfoldable pub effective_members : Uuid → MonitorGroup → List Uuid → List Monitor → List Uuid
  unfolding auto_rules_of pattern_of kinds_of
  effective_members user g manual ms =
      let r = auto_rules_of g in
      let manual_ids = set_of manual in
      if has_auto (kinds_of r) (pattern_of r)
      then add_auto user (kinds_of r) (pattern_of r) ms manual_ids
      else manual_ids

  -- `compute_view` after its one query, whose result is `manual`.
  unfoldable pub view_of : Uuid → MonitorGroup → List Uuid → List Monitor → GroupView
  view_of user g manual ms =
      let effective = effective_members user g manual ms in
      let (rolled, breakdown) = rollup effective ms in
      record {
        group = g;
        member_ids = sort effective;
        rolled_state = rolled;
        state_breakdown = breakdown;
      }
