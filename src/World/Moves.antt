-- ===== src/World/Moves.antt =====
-- Triples: a task that starts where one property of the database holds, and answers, ends where
-- another one holds.
use myccmonitor.Prelude.{◌≡◌, Bool-cases, inl, inr}
use myccmonitor.Json.{Uuid, Instant}
use myccmonitor.Error.{Result, ok, err}
use myccmonitor.Task.{◌>>=◌, ◌>>◌, pure, run}
use myccmonitor.Task.Run.{resume, run-bind, run_laws}
use myccmonitor.Task.Invariant.{Keeps, Keeps-run}
use myccmonitor.Store.Tables.{Db}
use myccmonitor.World.{World, Async, query, is_down}
use myccmonitor.World.Laws.{OnDb, OnOk}

pub record Moves {A : Type 0} (P : Db → Type 0) (t : Async A) (Q : Db → Type 0) : Type 0 where
  pub moves : (w : World) → P w.db → OnOk (λ _. Q (run t w).1.db) (run t w).0

module _ {Q R : Db → Type 0} where
  resumed :
      {A B : Type 0} (r : Result A) (w : World) (f : A → Async B)
      → OnOk (λ _. Q w.db) r
      → ((a : A) → Moves Q (f a) R)
      → OnOk (λ _. R (resume f (r, w)).1.db) (resume f (r, w)).0
  resumed (ok a) w f q mf = (mf a).moves w q
  resumed (err e) w f q mf = tt

  pub Moves-bind :
      {P : Db → Type 0} {A B : Type 0} {m : Async A} (f : A → Async B)
      → Moves P m Q
      → ((a : A) → Moves Q (f a) R)
      → Moves P (m >>= f) R
  Moves-bind {m} f mm mf = record {
    moves = λ w p. rw (run-bind m f w) (resumed (run m w).0 (run m w).1 f (mm.moves w p) mf);
  }

  pub Moves-then :
      {P : Db → Type 0} {A B : Type 0} {m : Async A} {n : Async B}
      → Moves P m Q
      → Moves Q n R
      → Moves P (m >> n) R
  unfolding ◌>>◌
  Moves-then {n} mm mn = Moves-bind (λ _. n) mm (λ _. mn)

on_ok : {A : Type 0} {P : Type 0} (r : Result A) → P → OnOk (λ _. P) r
on_ok (ok a) p = p
on_ok (err e) p = tt

pub Moves-Keeps : {A : Type 0} {P : Db → Type 0} {t : Async A} → Keeps (OnDb P) t → Moves P t P
Moves-Keeps {t} k = record {
  moves = λ w p. on_ok (run t w).0 (Keeps-run k w (record { on_db = p })).on_db;
}

pub Moves-query :
    {A : Type 0} {P Q : Db → Type 0} (f : Instant → Uuid → Db → A × Db)
    → ((now : Instant) (fresh : Uuid) (db : Db) → P db → Q (f now fresh db).1)
    → Moves P (query f) Q
unfolding query
Moves-query f h = record {
  moves = λ w p. elim (Bool-cases (is_down w)) [
    | inl d ↦ simp (run_laws, d) tt
    | inr u ↦ simp (run_laws, u) (h _ _ w.db p)
  ];
}

both :
    {A : Type 0} (P Q : Type 0) (r : Result A)
    → OnOk (λ _. P) r
    → OnOk (λ _. Q) r
    → OnOk (λ _. P × Q) r
both P Q (ok a) p q = (p, q)
both P Q (err e) p q = tt

pub Moves-both :
    {A : Type 0} {P P' Q Q' : Db → Type 0} {t : Async A}
    → Moves P t Q
    → Moves P' t Q'
    → Moves (λ db. P db × P' db) t (λ db. Q db × Q' db)
Moves-both {t} a b = record { moves = λ w p. both _ _ (run t w).0 (a.moves w p.0) (b.moves w p.1) }

pub Moves-pure : {A : Type 0} {P : Db → Type 0} (a : A) → Moves P (pure a) P
unfolding pure run
Moves-pure a = record { moves = λ w p. p }

answered : {A : Type 0} {P : Type 0} (r : Result A) (a : A) → r ≡ ok a → OnOk (λ _. P) r → P
answered (ok b) a e p = p
answered (err x) a e p = cc

-- Where the task answers.
pub Moves-answered :
    {A : Type 0} {P Q : Db → Type 0} {t : Async A} (w : World) (a : A)
    → Moves P t Q
    → P w.db
    → (run t w).0 ≡ ok a
    → Q (run t w).1.db
Moves-answered {t} w a m p e = answered (run t w).0 a e (m.moves w p)

pub Moves-weaken :
    {A : Type 0} {P P' Q : Db → Type 0} {t : Async A}
    → ((db : Db) → P' db → P db)
    → Moves P t Q
    → Moves P' t Q
Moves-weaken f m = record { moves = λ w p. m.moves w (f w.db p) }
