-- ===== src/Store/Retention.antt =====
-- The tables that every insertion prunes: how many rows a `DELETE … WHERE key NOT IN (…)` leaves.
use myccmonitor.Prelude.{
  ◌+◌, ◌≤◌, ◌≡◌, refl, Bool, false, not, ◌&&◌, ◌||◌, List, [], ◌∷◌, arith, any, filter, count_by,
  length, Bool-cases, inl, inr, String, str_eq, str_eq_iff,
}

module _ {A : Type 0} where
  pub count_or :
      (p q r : A → Bool) (xs : List A)
      → count_by (λ a. p a && (q a || r a)) xs
        ≤ count_by (λ a. p a && q a) xs + count_by (λ a. p a && r a) xs
  count_or p q r [] = omega arith
  count_or p q r (x ∷ xs) = ground (arith, count_or p q r xs)

  pub count_never : (p : A → Bool) (xs : List A) → count_by (λ a. p a && false) xs ≡ 0
  count_never p [] = refl
  count_never p (x ∷ xs) = ground (arith, count_never p xs)

  count_kept :
      (p q : A → Bool) (xs : List A)
      → count_by p (filter (λ a. not (p a) || q a) xs) ≡ count_by (λ a. p a && q a) xs
  count_kept p q [] = refl
  count_kept p q (x ∷ xs) = ground (arith, count_kept p q xs)

  pub others_kept :
      (p q : A → Bool) (xs : List A)
      → filter (λ a. not (p a)) (filter (λ a. not (p a) || q a) xs) ≡ filter (λ a. not (p a)) xs
  others_kept p q [] = refl
  others_kept p q (x ∷ xs) = ground (arith, others_kept p q xs)

  module _ {K : Type 0} (p : A → Bool) (hits : K → A → Bool) where
    -- At most one row for each key.
    count_keys :
        (ks : List K) (xs : List A)
        → ((k : K) → count_by (λ a. p a && hits k a) xs ≤ 1)
        → count_by (λ a. p a && any (λ k. hits k a) ks) xs ≤ length ks
    count_keys [] xs unique = ground (arith, count_never p xs)
    count_keys (k ∷ ks) xs unique = omega (
      arith,
      count_or p (hits k) (λ a. any (λ k. hits k a) ks) xs,
      unique k,
      count_keys ks xs unique,
    )

    pub prune_bound :
        (ks : List K) (xs : List A)
        → ((k : K) → count_by (λ a. p a && hits k a) xs ≤ 1)
        → count_by p (filter (λ a. not (p a) || any (λ k. hits k a) ks) xs) ≤ length ks
    prune_bound ks xs unique =
        omega (arith, count_kept p (λ a. any (λ k. hits k a) ks) xs, count_keys ks xs unique)

pub str_eq_sym : (s t : String) → str_eq s t ≡ str_eq t s
str_eq_sym s t = elim (Bool-cases (str_eq s t)) [
  | inl y ↦ rw (y, (str_eq_iff s t).0 y, (str_eq_iff t t).1 refl) refl
  | inr n ↦ elim (Bool-cases (str_eq t s)) [
    | inl y ↦ cc (rw ((str_eq_iff t s).0 y, (str_eq_iff s s).1 refl) at n)
    | inr n' ↦ rw (n, n') refl
  ]
]
