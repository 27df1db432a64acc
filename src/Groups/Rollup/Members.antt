-- ===== src/Groups/Rollup/Members.antt =====
-- groups/rollup.rs: who belongs to a group, and in which order the members are listed.
use myccmonitor.Prelude.{
  ◌<◌, ◌≡◌, refl, String, Bool, true, false, ◌&&◌, ◌||◌, Option, List, [], ◌∷◌, arith, ◌==◌, leb,
  any, contains, All, Bool-cases, inl, inr, ◌∙◌,
}
use myccmonitor.Json.{Uuid, Json}
use myccmonitor.Store.Rows.{Monitor, MonitorGroup, AutoRules}
use myccmonitor.Groups.Rollup.{
  set_insert, set_of, insert_sorted, sort, auto_matches, add_auto, has_auto, auto_rules_of,
  pattern_of, kinds_of, effective_members, view_of,
}

abbrev Distinct : List Uuid → Type 0
Distinct [] = Unit
Distinct (i ∷ is) = (contains is i ≡ false) × Distinct is

-- Strictly increasing: in order, and none twice.
abbrev pub IsIncreasing : List Uuid → Type 0
IsIncreasing [] = Unit
IsIncreasing (i ∷ is) = All (λ j. i < j) is × IsIncreasing is

contains-set_insert :
    (i j : Uuid) (s : List Uuid) → contains (set_insert i s) j ≡ ((i == j) || contains s j)
unfolding set_insert
contains-set_insert i j s = ground arith

set_insert-Distinct : (i : Uuid) (s : List Uuid) → Distinct s → Distinct (set_insert i s)
unfolding set_insert
set_insert-Distinct i s d = elim (Bool-cases (contains s i)) [
  | inl e ↦ rw e d
  | inr e ↦ rw e (e, d)
]

contains-set_of : (is : List Uuid) (j : Uuid) → contains (set_of is) j ≡ contains is j
unfolding set_of
contains-set_of [] j = refl
contains-set_of (i ∷ is) j = contains-set_insert i j (set_of is) ∙ rw (contains-set_of is j)

set_of-Distinct : (is : List Uuid) → Distinct (set_of is)
unfolding set_of
set_of-Distinct [] = tt
set_of-Distinct (i ∷ is) = set_insert-Distinct i (set_of is) (set_of-Distinct is)

contains-insert_sorted :
    (i j : Uuid) (s : List Uuid) → contains (insert_sorted i s) j ≡ ((i == j) || contains s j)
unfolding insert_sorted
contains-insert_sorted i j [] = refl
contains-insert_sorted i j (k ∷ s) = ground (arith, contains-insert_sorted i j s)

pub contains-sort : (is : List Uuid) (j : Uuid) → contains (sort is) j ≡ contains is j
unfolding sort
contains-sort [] j = refl
contains-sort (i ∷ is) j = contains-insert_sorted i j (sort is) ∙ rw (contains-sort is j)

below-insert_sorted :
    (k i : Uuid) (s : List Uuid) → k < i → All (λ j. k < j) s → All (λ j. k < j) (insert_sorted i s)
unfolding insert_sorted
below-insert_sorted k i [] h a = (h, tt)
below-insert_sorted k i (j ∷ s) h a =
    let ih = below-insert_sorted k i s h a.1 in
    elim (Bool-cases (leb i j)) [ inl e ↦ rw e (h, a) | inr e ↦ rw e (a.0, ih) ]

below_trans : (i j : Uuid) (s : List Uuid) → i < j → All (λ k. j < k) s → All (λ k. i < k) s
below_trans i j [] h a = tt
below_trans i j (k ∷ s) h a = (omega arith, below_trans i j s h a.1)

insert_sorted-IsIncreasing :
    (i : Uuid) (s : List Uuid)
    → contains s i ≡ false
    → IsIncreasing s
    → IsIncreasing (insert_sorted i s)
unfolding insert_sorted
insert_sorted-IsIncreasing i [] n h = (tt, tt)
insert_sorted-IsIncreasing i (j ∷ s) n h =
    let ih = insert_sorted-IsIncreasing i s (ground arith) h.1 in
    elim (Bool-cases (leb i j)) [
      | inl e ↦ let lt : i < j = ground arith in rw e ((lt, below_trans i j s lt h.0), h)
      | inr e ↦ rw e (below-insert_sorted j i s (ground arith) h.0, ih)
    ]

sort-IsIncreasing : (is : List Uuid) → Distinct is → IsIncreasing (sort is)
unfolding sort
sort-IsIncreasing [] d = tt
sort-IsIncreasing (i ∷ is) d =
    insert_sorted-IsIncreasing i (sort is) (contains-sort is i ∙ d.0) (sort-IsIncreasing is d.1)

module _ (user : Uuid) (kinds : Option (List String)) (name_re : Option (String → Bool)) where
  contains-add_auto :
      (ms : List Monitor) (s : List Uuid) (i : Uuid)
      → contains (add_auto user kinds name_re ms s) i
        ≡ (contains s i || any (λ m. auto_matches user kinds name_re m && (m.id == i)) ms)
  unfolding add_auto
  contains-add_auto [] s i = ground arith
  contains-add_auto (m ∷ ms) s i = elim (Bool-cases (auto_matches user kinds name_re m)) [
    | inl e ↦
        rw (e, add_auto)
          (contains-add_auto ms (set_insert m.id s) i
            ∙ ground (arith, contains-set_insert m.id i s))
    | inr e ↦ rw (e, add_auto) (contains-add_auto ms s i)
  ]

  add_auto-Distinct :
      (ms : List Monitor) (s : List Uuid) → Distinct s → Distinct (add_auto user kinds name_re ms s)
  unfolding add_auto
  add_auto-Distinct [] s d = d
  add_auto-Distinct (m ∷ ms) s d = elim (Bool-cases (auto_matches user kinds name_re m)) [
    | inl e ↦ rw (e, add_auto) (add_auto-Distinct ms _ (set_insert-Distinct m.id s d))
    | inr e ↦ rw (e, add_auto) (add_auto-Distinct ms s d)
  ]

module _ (decode_auto_rules : Json → Option AutoRules)
    (compile_regex : String → Option (String → Bool)) where
  -- The monitor is one of the user's, and the group has an automatic rule that it meets.
  abbrev pub is_auto_member : Uuid → MonitorGroup → Uuid → Monitor → Bool
  is_auto_member user g i m =
      let r = auto_rules_of decode_auto_rules compile_regex g in
      let kinds = kinds_of decode_auto_rules compile_regex r in
      let name_re = pattern_of decode_auto_rules compile_regex r in
      has_auto kinds name_re && (auto_matches user kinds name_re m && (m.id == i))

  any_guard :
      (b : Bool) (p : Monitor → Bool) (ms : List Monitor) → any (λ m. b && p m) ms ≡ (b && any p ms)
  any_guard true p ms = refl
  any_guard false p [] = refl
  any_guard false p (m ∷ ms) = any_guard false p ms

  contains-effective_members :
      (user : Uuid) (g : MonitorGroup) (manual : List Uuid) (ms : List Monitor) (i : Uuid)
      → contains (effective_members decode_auto_rules compile_regex user g manual ms) i
        ≡ (contains manual i || any (is_auto_member user g i) ms)
  unfolding effective_members
  contains-effective_members user g manual ms i =
      let r = auto_rules_of decode_auto_rules compile_regex g in
      let kinds = kinds_of decode_auto_rules compile_regex r in
      let name_re = pattern_of decode_auto_rules compile_regex r in
      let p : Monitor → Bool = λ m. auto_matches user kinds name_re m && (m.id == i) in
      let auto : any (is_auto_member user g i) ms ≡ (has_auto kinds name_re && any p ms) =
        any_guard (has_auto kinds name_re) p ms in
      elim (Bool-cases (has_auto kinds name_re)) [
        | inl e ↦
            rw (auto, e)
              (contains-add_auto user kinds name_re ms (set_of manual) i
                ∙ rw (contains-set_of manual i))
        | inr e ↦ rw (auto, e) (contains-set_of manual i ∙ ground arith)
      ]

  effective_members-Distinct :
      (user : Uuid) (g : MonitorGroup) (manual : List Uuid) (ms : List Monitor)
      → Distinct (effective_members decode_auto_rules compile_regex user g manual ms)
  unfolding effective_members
  effective_members-Distinct user g manual ms =
      let r = auto_rules_of decode_auto_rules compile_regex g in
      let kinds = kinds_of decode_auto_rules compile_regex r in
      let name_re = pattern_of decode_auto_rules compile_regex r in
      elim (Bool-cases (has_auto kinds name_re)) [
        | inl e ↦ rw e (add_auto-Distinct user kinds name_re ms _ (set_of-Distinct manual))
        | inr e ↦ rw e (set_of-Distinct manual)
      ]

  -- The listed members of a group are in increasing order without repetitions, and they are
  -- exactly the manual members and the user's monitors that meet the group's automatic rules.
  pub view_of-members :
      (user : Uuid) (g : MonitorGroup) (manual : List Uuid) (ms : List Monitor)
      → let ids = (view_of decode_auto_rules compile_regex user g manual ms).member_ids in
        IsIncreasing ids
        × ((i : Uuid) → contains ids i ≡ (contains manual i || any (is_auto_member user g i) ms))
  unfolding view_of
  view_of-members user g manual ms = (
    sort-IsIncreasing _ (effective_members-Distinct user g manual ms),
    λ i. contains-sort _ i ∙ contains-effective_members user g manual ms i,
  )
