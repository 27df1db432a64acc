-- ===== src/World/Laws.antt =====
-- Properties of the database that the steps of asynchronous code keep.
use myccmonitor.Prelude.{ℕ, List, Bool-cases, inl, inr}
use myccmonitor.Json.{Uuid, Instant}
use myccmonitor.Error.{Result, ok, err}
use myccmonitor.Task.{◌>>=◌}
use myccmonitor.Task.Invariant.{
  Keeps, Keeps-atomic, Keeps-atomic_bind, Keeps-bind, Keeps-then, Keeps-pure, Keeps-throw,
  Keeps-attempt, Keeps-if,
}
use myccmonitor.Store.Tables.{Db}
use myccmonitor.World.{
  World, Async, pick, run_query, query, select, run_ask, ask, run_utc_now, utc_now, run_guarded,
  guarded, is_down,
}

-- A property of the database, as one of the whole state.
pub record OnDb (P : Db → Type 0) (w : World) : Type 0 where
  pub on_db : P w.db

-- What an answer satisfies; a failed call has none.
abbrev pub OnOk : {A : Type 0} → (A → Type 0) → Result A → Type 0
OnOk Q (ok a) = Q a
OnOk Q (err e) = Unit

module _ {P : Db → Type 0} {A : Type 0} where
  run_query_keeps :
      (f : Instant → Uuid → Db → A × Db)
      → ((now : Instant) (fresh : Uuid) (db : Db) → P db → P (f now fresh db).1)
      → (w : World) → OnDb P w
      → OnDb P (run_query f w).1
  run_query_keeps f h w p = elim (Bool-cases (is_down w)) [
    | inl e ↦ rw e (record { on_db = p.on_db })
    | inr e ↦ rw e (record { on_db = h _ _ w.db p.on_db })
  ]

  run_query_answer :
      (Q : A → Type 0) (f : Instant → Uuid → Db → A × Db)
      → ((now : Instant) (fresh : Uuid) (db : Db) → P db → Q (f now fresh db).0)
      → (w : World) → OnDb P w
      → OnOk Q (run_query f w).0
  run_query_answer Q f q w p = elim (Bool-cases (is_down w)) [
    | inl e ↦ rw e tt
    | inr e ↦ rw e (q _ _ w.db p.on_db)
  ]

  pub Keeps-query :
      (f : Instant → Uuid → Db → A × Db)
      → ((now : Instant) (fresh : Uuid) (db : Db) → P db → P (f now fresh db).1)
      → Keeps (OnDb P) (query f)
  unfolding query
  Keeps-query f h = Keeps-atomic (run_query f) (run_query_keeps f h)

  pub Keeps-select : (f : Db → A) → Keeps (OnDb P) (select f)
  unfolding select
  Keeps-select f = Keeps-query (λ now fresh db. (f db, db)) (λ now fresh db p. p)

  pub run_ask_keeps : (f : ℕ → A) (w : World) → OnDb P w → OnDb P (run_ask f w).1
  run_ask_keeps f w p = elim (Bool-cases (is_down w)) [
    | inl e ↦ rw e (record { on_db = p.on_db })
    | inr e ↦ rw e (record { on_db = p.on_db })
  ]

  pub Keeps-ask : (f : ℕ → A) → Keeps (OnDb P) (ask f)
  unfolding ask
  Keeps-ask f = Keeps-atomic (run_ask f) (run_ask_keeps f)

  pub Keeps-select_bind :
      {B : Type 0} (Q : A → Type 0) (f : Db → A) (g : A → Async B)
      → ((db : Db) → P db → Q (f db))
      → ((a : A) → Q a → Keeps (OnDb P) (g a))
      → Keeps (OnDb P) (select f >>= g)
  unfolding select query
  Keeps-select_bind Q f g q kg =
      Keeps-atomic_bind (OnOk Q) (run_query (λ now fresh db. (f db, db))) g
        (run_query_keeps (λ now fresh db. (f db, db)) (λ now fresh db p. p))
        (run_query_answer Q (λ now fresh db. (f db, db)) (λ now fresh db p. q db p)) kg

module _ {P : Db → Type 0} where
  pub Keeps-utc_now : Keeps (OnDb P) utc_now
  unfolding utc_now
  Keeps-utc_now = Keeps-atomic run_utc_now (λ w p. record { on_db = p.on_db })

  pub Keeps-guarded : {A : Type 0} (f : List Uuid → A × List Uuid) → Keeps (OnDb P) (guarded f)
  unfolding guarded
  Keeps-guarded f = Keeps-atomic (run_guarded f) (λ w p. record { on_db = p.on_db })

  pub pick_keeps : (w : World) → OnDb P w → OnDb P (pick w).1
  pick_keeps w p = record { on_db = p.on_db }

pub ruleset keeps_rules = (
  Keeps-bind, Keeps-then, Keeps-pure, Keeps-throw, Keeps-attempt, Keeps-select, Keeps-utc_now,
  Keeps-guarded,
)
