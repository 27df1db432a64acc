-- ===== src/Rules/Dependencies/Complete.antt =====
-- rules/dependencies.rs: every reference of a condition is extracted, once.
use myccmonitor.Prelude.{
  ◌≡◌, refl, sym, ◌∙◌, String, Bool, true, false, Option, List, [], ◌∷◌, ◌||◌, ◌==◌, ==_iff, str_eq,
  str_eq_iff, any, Bool-cases, inl, inr,
}
use myccmonitor.Json.{Uuid}
use myccmonitor.Error.{Result, ok, err}
use myccmonitor.Rules.Condition.{Condition, comparison, logical, Children, no_child, child}
use myccmonitor.Rules.Field.{FieldRef, parse, ref_pair}
use myccmonitor.Rules.Dependencies.{
  Ref, ref_eq, insert_ref, walk_field, walk, walk_children, extract,
}

abbrev has_ref : Ref → List Ref → Bool
has_ref p seen = any (λ q. ref_eq p q) seen

abbrev pub IsDistinct : List Ref → Type 0
IsDistinct [] = Unit
IsDistinct (p ∷ ps) = (any (λ q. ref_eq p q) ps ≡ false) × IsDistinct ps

abbrev pub reads_ref : Ref → Result FieldRef → Bool
reads_ref p (ok r) = ref_eq p (ref_pair r)
reads_ref p (err e) = false

module _ (parse_uuid : String → Option Uuid) (p : Ref) where
  -- Some comparison of the condition has a field that reads the reference.
  unfoldable mutual
    pub refers : Condition → Bool
    refers (comparison field operator value for_duration) = reads_ref p (parse parse_uuid field)
    refers (logical op children) = any_refers children

    any_refers : Children → Bool
    any_refers no_child = false
    any_refers (child c cs) = refers c || any_refers cs

pair : {k k' : String} {i i' : Uuid} → k ≡ k' → i ≡ i' → ◌≡◌ {A = Ref} (k, i) (k', i')
pair a b j = (a j, b j)

ref_eq_same : (p q : Ref) → ref_eq p q ≡ true → p ≡ q
ref_eq_same (k, i) (k', i') e = elim (Bool-cases (str_eq k k')) [
  | inl a ↦ elim (Bool-cases (i == i')) [
    | inl b ↦ pair ((str_eq_iff k k').0 a) ((==_iff i i').0 b)
    | inr b ↦ cc (rw (a, b) at e)
  ]
  | inr a ↦ cc (rw a at e)
]

or_flip : (a b : Bool) → (a || b) ≡ (b || a)
or_flip true true = refl
or_flip true false = refl
or_flip false true = refl
or_flip false false = refl

or_true : (a : Bool) → (a || true) ≡ true
or_true true = refl
or_true false = refl

or_false : (a : Bool) → a ≡ (a || false)
or_false true = refl
or_false false = refl

has_ref-insert_ref :
    (p q : Ref) (seen : List Ref) → has_ref p (insert_ref q seen) ≡ (has_ref p seen || ref_eq p q)
unfolding insert_ref
has_ref-insert_ref p q seen = elim (Bool-cases (has_ref q seen)) [
  | inr new ↦ rw new (or_flip (ref_eq p q) (has_ref p seen))
  | inl old ↦ elim (Bool-cases (ref_eq p q)) [
    | inr e ↦ rw (old, e) (or_false (has_ref p seen))
    | inl e ↦ rw (old, e) (rw (sym (ref_eq_same p q e)) at old ∙ sym (or_true (has_ref p seen)))
  ]
]

insert_ref-IsDistinct :
    (q : Ref) (seen : List Ref) → IsDistinct seen → IsDistinct (insert_ref q seen)
unfolding insert_ref
insert_ref-IsDistinct q seen d = elim (Bool-cases (has_ref q seen)) [
  | inl old ↦ rw old d
  | inr new ↦ rw new (new, d)
]

or_assoc : (a b c : Bool) → ((a || b) || c) ≡ (a || (b || c))
or_assoc true b c = refl
or_assoc false b c = refl

has_ref-walk_field :
    (p : Ref) (r : Result FieldRef) (seen : List Ref)
    → has_ref p (walk_field r seen) ≡ (has_ref p seen || reads_ref p r)
unfolding walk_field
has_ref-walk_field p (ok r) seen = has_ref-insert_ref p (ref_pair r) seen
has_ref-walk_field p (err e) seen = or_false (has_ref p seen)

walk_field-IsDistinct :
    (r : Result FieldRef) (seen : List Ref) → IsDistinct seen → IsDistinct (walk_field r seen)
unfolding walk_field
walk_field-IsDistinct (ok r) seen d = insert_ref-IsDistinct (ref_pair r) seen d
walk_field-IsDistinct (err e) seen d = d

module _ (parse_uuid : String → Option Uuid) where
  mutual
    unfolding walk walk_children refers any_refers

    has_ref-walk :
        (p : Ref) (c : Condition) (seen : List Ref)
        → has_ref p (walk parse_uuid c seen) ≡ (has_ref p seen || refers parse_uuid p c)
    has_ref-walk p (comparison field operator value d) seen =
        has_ref-walk_field p (parse parse_uuid field) seen
    has_ref-walk p (logical op cs) seen = has_ref-walk_children p cs seen

    has_ref-walk_children :
        (p : Ref) (cs : Children) (seen : List Ref)
        → has_ref p (walk_children parse_uuid cs seen)
          ≡ (has_ref p seen || any_refers parse_uuid p cs)
    has_ref-walk_children p no_child seen = or_false (has_ref p seen)
    has_ref-walk_children p (child c cs) seen =
        has_ref-walk_children p cs (walk parse_uuid c seen)
        ∙ (rw (has_ref-walk p c seen) (or_assoc (has_ref p seen) _ _))

  mutual
    unfolding walk walk_children

    walk-IsDistinct :
        (c : Condition) (seen : List Ref) → IsDistinct seen → IsDistinct (walk parse_uuid c seen)
    walk-IsDistinct (comparison field operator value d) seen h =
        walk_field-IsDistinct (parse parse_uuid field) seen h
    walk-IsDistinct (logical op cs) seen h = walk_children-IsDistinct cs seen h

    walk_children-IsDistinct :
        (cs : Children) (seen : List Ref)
        → IsDistinct seen
        → IsDistinct (walk_children parse_uuid cs seen)
    walk_children-IsDistinct no_child seen h = h
    walk_children-IsDistinct (child c cs) seen h =
        walk_children-IsDistinct cs (walk parse_uuid c seen) (walk-IsDistinct c seen h)

  -- The references extracted from a condition are exactly those that the field of one of its
  -- comparisons reads, however deep it stands, and each of them occurs once.
  pub extract-refers :
      (c : Condition)
      → IsDistinct (extract parse_uuid c)
        × ((p : Ref) → any (λ q. ref_eq p q) (extract parse_uuid c) ≡ refers parse_uuid p c)
  unfolding extract
  extract-refers c = (walk-IsDistinct c [] tt, λ p. has_ref-walk p c [])
