-- ===== src/Handlers/Rules/Owned.antt =====
-- handlers/rules.rs, `all_owned`: comparing a count with the number of distinct ids.
use myccmonitor.Prelude.{
  subst, ◌≤◌, ◌≡◌, refl, ◌∙◌, true, not, ◌&&◌, ◌||◌, List, [], ◌∷◌, arith, ◌==◌, any, contains,
  count_by, length, All, Bool-cases, inl, inr,
}
use myccmonitor.Json.{Uuid}
use myccmonitor.Error.{forbidden}
use myccmonitor.Store.Tables.{Db}
use myccmonitor.Store.Retention.{count_or, count_never}
use myccmonitor.Store.Ownership.{is_own}
use myccmonitor.World.Post.{
  Ends, Unchanged, Ends-pure, Ends-throw, Ends-select, Ends-bind, Ends-if, Ends-weaken,
}
use myccmonitor.Groups.Rollup.{sort}
use myccmonitor.Groups.Rollup.Members.{contains-sort}
use myccmonitor.Rules.Exec.{dedup_from, dedup}
use myccmonitor.Handlers.Rules.{count_owned, owned_distinct, all_owned}

contains-dedup_from :
    (i : Uuid) (js : List Uuid) (k : Uuid)
    → contains (dedup_from i js) k ≡ ((i == k) || contains js k)
unfolding dedup_from
contains-dedup_from i [] k = refl
contains-dedup_from i (j ∷ js) k = elim (Bool-cases (i == j)) [
  | inl y ↦ rw y (ground (arith, contains-dedup_from j js k))
  | inr n ↦ rw n (ground (arith, contains-dedup_from j js k))
]

contains-dedup : (is : List Uuid) (k : Uuid) → contains (dedup is) k ≡ contains is k
unfolding dedup
contains-dedup [] k = refl
contains-dedup (i ∷ is) k = contains-dedup_from i is k

All-of_contains :
    (P : Uuid → Type 0) (is : List Uuid) → ((i : Uuid) → contains is i ≡ true → P i) → All P is
All-of_contains P [] f = tt
All-of_contains P (i ∷ is) f =
    (f i (ground arith), All-of_contains P is (λ j e. f j (ground (arith, e))))

contains_of_all :
    (P : Uuid → Type 0) (is : List Uuid) (i : Uuid) → All P is → contains is i ≡ true → P i
contains_of_all P [] i h e = cc
contains_of_all P (j ∷ is) i h e = elim (Bool-cases (j == i)) [
  | inl y ↦ subst P (ground (arith, y)) h.0
  | inr n ↦ contains_of_all P is i h.1 (rw n at e)
]

module _ {A : Type 0} (key owner : A → Uuid) (u : Uuid) where
  -- The key is unique among the rows of the user.
  abbrev pub IsUnique : List A → Type 0
  IsUnique rows = (k : Uuid) → count_by (λ a. (owner a == u) && (k == key a)) rows ≤ 1

  contained_le :
      (ks : List Uuid) (rows : List A)
      → IsUnique rows
      → count_by (λ a. (owner a == u) && contains ks (key a)) rows ≤ length ks
  contained_le [] rows unique = ground (arith, count_never (λ a. owner a == u) rows)
  contained_le (k ∷ ks) rows unique = omega (
    arith,
    count_or (λ a. owner a == u) (λ a. k == key a) (λ a. contains ks (key a)) rows,
    unique k,
    contained_le ks rows unique,
  )

  one-any :
      (k : Uuid) (rows : List A)
      → 1 ≤ count_by (λ a. (owner a == u) && (k == key a)) rows
      → any (is_own key owner u k) rows ≡ true
  one-any k [] h = ground arith
  one-any k (a ∷ rows) h = elim (Bool-cases ((owner a == u) && (k == key a))) [
    | inl y ↦ ground (arith, y)
    | inr n ↦ ground (arith, n, one-any k rows)
  ]

  contained-All :
      (ks : List Uuid) (rows : List A)
      → IsUnique rows
      → length ks ≤ count_by (λ a. (owner a == u) && contains ks (key a)) rows
      → All (λ k. any (is_own key owner u k) rows ≡ true) ks
  contained-All [] rows unique h = tt
  contained-All (k ∷ ks) rows unique h =
      let split = count_or (λ a. owner a == u) (λ a. k == key a) (λ a. contains ks (key a)) rows in
      (
        one-any k rows (omega (arith, split, contained_le ks rows unique)),
        contained-All ks rows unique (omega (arith, split, unique k)),
      )

module _ {A : Type 0} (key owner : A → Uuid) (table : Db → List A) (before : Db) (u : Uuid)
    (unique : IsUnique key owner u (table before)) where
  abbrev pub OwnsAll : List Uuid → Type 0
  OwnsAll ids = All (λ k. any (is_own key owner u k) (table before) ≡ true) ids

  owned_distinct_ends :
      (ids : List Uuid)
      → Ends before (owned_distinct key owner table u ids) (Unchanged before (λ _. OwnsAll ids))
  unfolding owned_distinct
  owned_distinct_ends [] = Ends-pure before tt tt
  owned_distinct_ends (i ∷ ids) =
      Ends-bind before {P = λ n. n ≡ count_owned key owner table u (i ∷ ids) before} _
        (Ends-select before (count_owned key owner table u (i ∷ ids)) refl) (λ x. refl)
        (λ found e.
          Ends-if before (not (found == length (i ∷ ids))) (λ _. Ends-throw before forbidden refl)
            (λ same.
              Ends-pure before tt
                (contained-All key owner u (i ∷ ids) (table before) unique (ground arith))))

  pub all_owned_ends :
      (ids : List Uuid)
      → Ends before (all_owned key owner table u ids) (Unchanged before (λ _. OwnsAll ids))
  unfolding all_owned
  all_owned_ends ids = Ends-weaken before (owned_distinct_ends (dedup (sort ids))) (λ _ own.
      All-of_contains _ ids (λ i e.
        contains_of_all _ (dedup (sort ids)) i own
          (contains-dedup (sort ids) i ∙ (contains-sort ids i ∙ e))))
