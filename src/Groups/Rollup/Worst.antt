-- ===== src/Groups/Rollup/Worst.antt =====
-- groups/rollup.rs: the rolled-up state is the worst state of the members, and the counts add up.
use myccmonitor.Prelude.{
  ℕ, suc, ◌+◌, ◌<◌, ◌≡◌, refl, ◌∙◌, Bool, true, false, ◌||◌, List, [], ◌∷◌, arith, if◌then◌else◌,
  length, any, count_by, contains, Bool-cases, inl, inr, sym,
}
use myccmonitor.Json.{Uuid}
use myccmonitor.Store.Rows.{Monitor}
use myccmonitor.Groups.Rollup.{
  RolledState, ok, warning, critical, unknown, from_str, merge, StateBreakdown, count_state, Tally,
  tally, no_tally, rollup,
}

-- The states of the group's members, in the order of the rows.
abbrev pub member_states : List Uuid → List Monitor → List RolledState
member_states effective [] = []
member_states effective (m ∷ ms) =
    let rest = member_states effective ms in
    if contains effective m.id then from_str m.current_state ∷ rest else rest

abbrev pub is_critical : RolledState → Bool
is_critical critical = true
is_critical _ = false

abbrev pub is_warning : RolledState → Bool
is_warning warning = true
is_warning _ = false

abbrev is_ok : RolledState → Bool
is_ok ok = true
is_ok _ = false

abbrev pub is_nonempty : List RolledState → Bool
is_nonempty [] = false
is_nonempty (s ∷ ss) = true

-- The specification: what a group in these states shows.
abbrev pub worst : List RolledState → RolledState
worst ss =
    if any is_critical ss
    then critical
    else if any is_warning ss
    then warning
    else if is_nonempty ss
    then ok
    else unknown

merge_all : RolledState → List RolledState → RolledState
merge_all r [] = r
merge_all r (s ∷ ss) = merge_all (merge r s) ss

abbrev worst_from : RolledState → List RolledState → RolledState
worst_from r ss =
    if any is_critical (r ∷ ss)
    then critical
    else if any is_warning (r ∷ ss)
    then warning
    else if any is_ok (r ∷ ss)
    then ok
    else unknown

merge_all-worst : (r : RolledState) (ss : List RolledState) → merge_all r ss ≡ worst_from r ss
unfolding merge_all merge
merge_all-worst ok [] = refl
merge_all-worst _ [] = refl
merge_all-worst ok (s ∷ ss) = ground (arith, merge_all-worst (merge ok s) ss)
merge_all-worst r (s ∷ ss) = ground (arith, merge_all-worst (merge r s) ss)

tally-rolled :
    (effective : List Uuid) (ms : List Monitor) (t : Tally)
    → (tally effective ms t).rolled ≡ merge_all t.rolled (member_states effective ms)
unfolding tally merge_all
tally-rolled effective [] t = refl
tally-rolled effective (m ∷ ms) t = elim (Bool-cases (contains effective m.id)) [
  | inl e ↦ rw (e, tally) (tally-rolled effective ms _)
  | inr e ↦ rw (e, tally) (tally-rolled effective ms t)
]

tally-any_member :
    (effective : List Uuid) (ms : List Monitor) (t : Tally)
    → (tally effective ms t).any_member ≡ (t.any_member || is_nonempty (member_states effective ms))
unfolding tally
tally-any_member effective [] t = ground arith
tally-any_member effective (m ∷ ms) t = elim (Bool-cases (contains effective m.id)) [
  | inl e ↦ rw (e, tally) (tally-any_member effective ms _ ∙ ground arith)
  | inr e ↦ rw (e, tally) (tally-any_member effective ms t)
]

-- The rolled-up state of a group is the worst state among its members (critical, then warning),
-- `ok` where no member is critical or warning, and `unknown` only where it has no member at all.
pub rollup-worst :
    (effective : List Uuid) (ms : List Monitor)
    → (rollup effective ms).0 ≡ worst (member_states effective ms)
unfolding rollup
rollup-worst effective ms = ground (
  arith,
  tally-rolled effective ms no_tally,
  tally-any_member effective ms no_tally,
  merge_all-worst ok (member_states effective ms),
)

abbrev is_unknown : RolledState → Bool
is_unknown unknown = true
is_unknown _ = false

-- How often each state occurs among the members.
abbrev pub counts : List RolledState → StateBreakdown
counts ss = record {
  ok = count_by is_ok ss;
  warning = count_by is_warning ss;
  critical = count_by is_critical ss;
  unknown = count_by is_unknown ss;
  total = length ss;
}

abbrev add_counts : StateBreakdown → StateBreakdown → StateBreakdown
add_counts a b = record {
  ok = a.ok + b.ok;
  warning = a.warning + b.warning;
  critical = a.critical + b.critical;
  unknown = a.unknown + b.unknown;
  total = a.total + b.total;
}

abbrev sum_of : StateBreakdown → ℕ
sum_of b = b.ok + b.warning + b.critical + b.unknown

count_state-add :
    (s : RolledState) (ss : List RolledState) (b : StateBreakdown)
    → sum_of b ≡ b.total
    → b.total + 1 < 4294967296
    → (sum_of (count_state s b) ≡ b.total + 1)
      × ((count_state s b).total ≡ b.total + 1)
      × (add_counts (count_state s b) (counts ss) ≡ add_counts b (counts (s ∷ ss)))
unfolding count_state
count_state-add ok ss b e h = (ground arith, ground arith, ground arith)
count_state-add _ ss b e h = (ground arith, ground arith, ground arith)

tally-breakdown :
    (effective : List Uuid) (ms : List Monitor) (t : Tally)
    → sum_of t.breakdown ≡ t.breakdown.total
    → t.breakdown.total + length (member_states effective ms) < 4294967296
    → (tally effective ms t).breakdown
      ≡ add_counts t.breakdown (counts (member_states effective ms))
unfolding tally
tally-breakdown effective [] t e h = ground arith
tally-breakdown effective (m ∷ ms) t e h = elim (Bool-cases (contains effective m.id)) [
  | inl p ↦
      let s = from_str m.current_state in
      let rest = member_states effective ms in
      let room : t.breakdown.total + suc (length rest) < 4294967296 = rw p at h in
      let step = count_state-add s rest t.breakdown e (omega arith) in
      rw (p, tally) (tally-breakdown effective ms _ (step.0 ∙ sym step.1) (omega arith) ∙ step.2)
  | inr p ↦ rw (p, tally) (tally-breakdown effective ms t e (rw p at h))
]

-- With fewer than 2^32 members no counter wraps: the breakdown holds how often each state occurs
-- among the members, and their number.
pub rollup-counts :
    (effective : List Uuid) (ms : List Monitor)
    → length (member_states effective ms) < 4294967296
    → (rollup effective ms).1 ≡ counts (member_states effective ms)
unfolding rollup
rollup-counts effective ms h =
    tally-breakdown effective ms no_tally (omega arith) (omega arith) ∙ ground arith
