-- ===== src/Store/Ownership.antt =====
-- Rows with a key and an owner: what an update by key may touch, once a lookup has shown that the
-- key belongs to a user.
use myccmonitor.Prelude.{
  ℕ, ◌≡◌, refl, ◌∙◌, Bool, true, false, ◌&&◌, some, List, [], ◌∷◌, arith, ◌==◌, any, find,
  update_where, All, Bool-cases, inl, inr,
}

module _ {A : Type 0} (key owner : A → ℕ) (u : ℕ) where
  abbrev pub is_own : ℕ → A → Bool
  is_own i a = (key a == i) && (owner a == u)

  -- Row by row the same keys and owners, and the rows of other owners unchanged.
  abbrev pub Within : List A → List A → Type 0
  Within [] [] = Unit
  Within (a ∷ as') (b ∷ bs) =
      ((key b ≡ key a) × (owner b ≡ owner a) × ((owner a == u) ≡ false → b ≡ a)) × Within as' bs
  Within [] (b ∷ bs) = ⊥
  Within (a ∷ as') [] = ⊥

  -- A key that one row of `u` has belongs to `u` in every row: keys are unique.
  abbrev pub IsKeyed : List A → Type 0
  IsKeyed rows =
      (i : ℕ)
      → any (is_own i) rows ≡ true
      → All (λ a. (key a == i) ≡ true → (owner a == u) ≡ true) rows

  pub Within-refl : (rows : List A) → Within rows rows
  Within-refl [] = tt
  Within-refl (a ∷ rows) = ((refl, refl, λ _. refl), Within-refl rows)

  pub any_of_find :
      (i : ℕ) (rows : List A) {a : A} → find (is_own i) rows ≡ some a → any (is_own i) rows ≡ true
  any_of_find i [] e = cc
  any_of_find i (b ∷ rows) e = elim (Bool-cases (is_own i b)) [
    | inl p ↦ ground arith
    | inr p ↦ ground (arith, any_of_find i rows (rw p at e))
  ]

  pub find-is_own :
      (i : ℕ) (rows : List A) {a : A} → find (is_own i) rows ≡ some a → is_own i a ≡ true
  find-is_own i [] e = cc
  find-is_own i (b ∷ rows) e = elim (Bool-cases (is_own i b)) [
    | inl p ↦ ground arith
    | inr p ↦ find-is_own i rows (rw p at e)
  ]

  pub any-Within :
      (i : ℕ) (rows rows' : List A) → Within rows rows' → any (is_own i) rows' ≡ any (is_own i) rows
  any-Within i [] [] h = refl
  any-Within i [] (b ∷ bs) h = absurd h
  any-Within i (a ∷ rows) [] h = absurd h
  any-Within i (a ∷ rows) (b ∷ bs) h = rw (h.0.0, h.0.1, any-Within i rows bs h.1)

  pub update-Within :
      (i : ℕ) (p : A → Bool) (f : A → A) (rows rows' : List A)
      → ((a : A) → p a ≡ true → (key a == i) ≡ true)
      → ((a : A) → (key (f a) ≡ key a) × (owner (f a) ≡ owner a))
      → All (λ a. (key a == i) ≡ true → (owner a == u) ≡ true) rows
      → Within rows rows'
      → Within rows (update_where p f rows')
  update-Within i p f [] [] on same own h = tt
  update-Within i p f [] (b ∷ bs) on same own h = absurd h
  update-Within i p f (a ∷ rows) [] on same own h = absurd h
  update-Within i p f (a ∷ rows) (b ∷ bs) on same own h = (
    elim (Bool-cases (p b)) [
      | inl e ↦ rw e (
        (same b).0 ∙ h.0.0,
        (same b).1 ∙ h.0.1,
        λ other. absurd (ground (arith, own.0 (rw h.0.0 at (on b e)))),
      )
      | inr e ↦ rw e h.0
    ],
    update-Within i p f rows bs on same own.1 h.1,
  )
