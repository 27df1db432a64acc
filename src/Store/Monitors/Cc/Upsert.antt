-- ===== src/Store/Monitors/Cc/Upsert.antt =====
-- db/monitors.rs, `upsert_cc`: one row for a resource, and every state but
-- 'unknown' stays.
use myccmonitor.Prelude.{
  ◌≡◌, ◌≤◌, ◌⊎◌, refl, String, Bool, true, false, not, none, some, List, [], ◌∷◌, arith, ==_refl,
  str_eq, str_eq_iff, find, filter, count_by, update_where, Bool-cases, Option-cases, inl, inr,
}
use myccmonitor.Json.{Uuid, Instant}
use myccmonitor.Store.Rows.{Monitor}
use myccmonitor.Store.Tables.{Db}
use myccmonitor.Store.Monitors.Cc.{
  MonitorInput, conflicts, refreshed, new_monitor, upsert_rows, upsert_cc,
}

str_eq_refl : (s : String) → str_eq s s ≡ true
str_eq_refl s = (str_eq_iff s s).1 refl

module _ {A : Type 0} (p : A → Bool) (f : A → A) (same : (a : A) → p (f a) ≡ p a) where
  count_update : (xs : List A) → count_by p (update_where p f xs) ≡ count_by p xs
  count_update [] = refl
  count_update (x ∷ xs) = elim (Bool-cases (p x)) [
    | inl y ↦ ground (arith, count_update xs, same x, y)
    | inr n ↦ ground (arith, count_update xs, n)
  ]

  others_update :
      (xs : List A) → filter (λ a. not (p a)) (update_where p f xs) ≡ filter (λ a. not (p a)) xs
  others_update [] = refl
  others_update (x ∷ xs) = elim (Bool-cases (p x)) [
    | inl y ↦ ground (arith, others_update xs, same x, y)
    | inr n ↦ ground (arith, others_update xs, n)
  ]

find-none-count : {A : Type 0} (p : A → Bool) (xs : List A) → find p xs ≡ none → count_by p xs ≡ 0
find-none-count p [] e = refl
find-none-count p (x ∷ xs) e = elim (Bool-cases (p x)) [
  | inl y ↦ cc (rw y at e)
  | inr n ↦ rw n (find-none-count p xs (rw n at e))
]

find-some-count :
    {A : Type 0} (p : A → Bool) (xs : List A) {a : A} → find p xs ≡ some a → 1 ≤ count_by p xs
find-some-count p [] e = cc
find-some-count p (x ∷ xs) e = elim (Bool-cases (p x)) [
  | inl y ↦ rw y (omega arith)
  | inr n ↦ rw n (find-some-count p xs (rw n at e))
]

module _ (u : Uuid) (input : MonitorInput) (now : Instant) (fresh : Uuid) where
  refreshed-conflicts :
      (m : Monitor) → conflicts u input (refreshed input now m) ≡ conflicts u input m
  unfolding refreshed
  refreshed-conflicts m = refl

  new_monitor-conflicts :
      (org resource : String)
      → input.cc_org_id ≡ some org
      → input.cc_resource_id ≡ some resource
      → conflicts u input (new_monitor u input now fresh) ≡ true
  unfolding new_monitor
  new_monitor-conflicts org resource eo er =
      rw (eo, er, ==_refl u, str_eq_refl org, str_eq_refl input.kind, str_eq_refl resource) refl

  -- One row for the resource, and the rows of all others as they were.
  abbrev OneRow : List Monitor → List Monitor → Type 0
  OneRow before after =
      (count_by (conflicts u input) after ≡ 1)
      × (filter (λ m. not (conflicts u input m)) after
          ≡ filter (λ m. not (conflicts u input m)) before)

  upsert_rows-OneRow :
      (org resource : String) (rows : List Monitor)
      → input.cc_org_id ≡ some org
      → input.cc_resource_id ≡ some resource
      → count_by (conflicts u input) rows ≤ 1
      → OneRow rows (upsert_rows u input now fresh rows).1
  unfolding upsert_rows
  upsert_rows-OneRow org resource rows eo er le =
      elim (Option-cases (find (conflicts u input) rows)) [
        | inl e ↦
            rw (e, new_monitor-conflicts org resource eo er, find-none-count _ rows e) (refl, refl)
        | inr (m, e) ↦ rw e (
          (let one = find-some-count (conflicts u input) rows e in
              omega (
                arith,
                count_update (conflicts u input) (refreshed input now) refreshed-conflicts rows,
              )),
          others_update (conflicts u input) (refreshed input now) refreshed-conflicts rows,
        )
      ]

-- An upsert of a resource of an organisation leaves exactly one monitor for it, and the monitors of
-- all other users, organisations, kinds and resources as they were, if there was at most one.
pub upsert_cc-OneRow :
    (u : Uuid) (input : MonitorInput) (now : Instant) (fresh : Uuid) (org resource : String)
    (db : Db)
    → input.cc_org_id ≡ some org
    → input.cc_resource_id ≡ some resource
    → count_by (conflicts u input) db.monitors ≤ 1
    → let after = (upsert_cc u input now fresh db).1.monitors in
      (count_by (conflicts u input) after ≡ 1)
      × (filter (λ m. not (conflicts u input m)) after
          ≡ filter (λ m. not (conflicts u input m)) db.monitors)
unfolding upsert_cc
upsert_cc-OneRow u input now fresh org resource db eo er le =
    upsert_rows-OneRow u input now fresh org resource db.monitors eo er le

-- What the row says of the state, and what only the user sets, is kept; a state that is unknown may
-- become another.
pub record StaysKnown (m m' : Monitor) : Type 0 where
  pub id : m'.id ≡ m.id
  pub acknowledged : m'.acknowledged ≡ m.acknowledged
  pub enabled : m'.enabled ≡ m.enabled
  pub message : m'.current_message ≡ m.current_message
  pub known :
      str_eq m.current_state "unknown" ≡ false
      → (m'.current_state ≡ m.current_state) × (m'.current_state_since ≡ m.current_state_since)

abbrev pub RowByRow : List Monitor → List Monitor → Type 0
RowByRow [] [] = Unit
RowByRow (m ∷ ms) (m' ∷ ms') = StaysKnown m m' × RowByRow ms ms'
RowByRow _ _ = ⊥

module _ (u : Uuid) (input : MonitorInput) (now : Instant) (fresh : Uuid) where
  refreshed-StaysKnown : (m : Monitor) → StaysKnown m (refreshed input now m)
  unfolding refreshed
  refreshed-StaysKnown m = record {
    id = refl;
    acknowledged = refl;
    enabled = refl;
    message = refl;
    known = λ e. rw e (refl, refl);
  }

  same-StaysKnown : (m : Monitor) → StaysKnown m m
  same-StaysKnown m = record {
    id = refl;
    acknowledged = refl;
    enabled = refl;
    message = refl;
    known = λ e. (refl, refl);
  }

  update-RowByRow :
      (p : Monitor → Bool) (rows : List Monitor)
      → RowByRow rows (update_where p (refreshed input now) rows)
  update-RowByRow p [] = tt
  update-RowByRow p (m ∷ rows) = elim (Bool-cases (p m)) [
    | inl y ↦ rw y (refreshed-StaysKnown m, update-RowByRow p rows)
    | inr n ↦ rw n (same-StaysKnown m, update-RowByRow p rows)
  ]

  same-RowByRow : (rows : List Monitor) → RowByRow rows rows
  same-RowByRow [] = tt
  same-RowByRow (m ∷ rows) = (same-StaysKnown m, same-RowByRow rows)

  -- The rows, but for one that the upsert inserted.
  abbrev pub KeepsStates : List Monitor → List Monitor → Type 0
  KeepsStates before after =
      RowByRow before after ⊎ ((m : Monitor) × ((after ≡ m ∷ before) × (m.id ≡ fresh)))

  upsert_rows-KeepsStates :
      (rows : List Monitor) → KeepsStates rows (upsert_rows u input now fresh rows).1
  unfolding upsert_rows new_monitor
  upsert_rows-KeepsStates rows = elim (Option-cases (find (conflicts u input) rows)) [
    | inl e ↦ rw e (inr (new_monitor u input now fresh, (refl, refl)))
    | inr (m, e) ↦ rw e (inl (update-RowByRow (conflicts u input) rows))
  ]

-- An upsert never overwrites a state that is known, nor a message, an acknowledgement or an enabled
-- flag: row by row the table is as before in these, or it has one row more, with the new id.
pub upsert_cc-KeepsStates :
    (u : Uuid) (input : MonitorInput) (now : Instant) (fresh : Uuid) (db : Db)
    → KeepsStates u input now fresh db.monitors (upsert_cc u input now fresh db).1.monitors
unfolding upsert_cc
upsert_cc-KeepsStates u input now fresh db = upsert_rows-KeepsStates u input now fresh db.monitors
