-- ===== src/World/Post.antt =====
-- Postconditions: what holds of the outcome of a task and of the database that it leaves, when it
-- starts on a given database.
use myccmonitor.Prelude.{
  ◌≡◌, refl, sym, ◌∙◌, subst, Bool, true, false, Bool-cases, inl, inr, if◌then◌else◌,
}
use myccmonitor.Json.{Uuid, Instant}
use myccmonitor.Error.{Error, unavailable, Result, ok, err}
use myccmonitor.Task.{◌>>=◌, ◌>>◌, pure, throw, atomic, run}
use myccmonitor.Task.Run.{resume, run-bind, run_laws}
use myccmonitor.Task.Invariant.{Keeps, Keeps-run}
use myccmonitor.Store.Tables.{Db}
use myccmonitor.World.{World, Async, query, select, is_down, now_of}
use myccmonitor.World.Laws.{OnDb}

module _ (before : Db) where
  pub record Ends {A : Type 0} (t : Async A) (Q : Result A → Db → Type 0) : Type 0 where
    pub ends : (w : World) → w.db ≡ before → Q (run t w).0 (run t w).1.db

  -- The task changes nothing, and its answer has the property.
  abbrev pub Unchanged : {A : Type 0} → (A → Type 0) → Result A → Db → Type 0
  Unchanged P (ok a) db = P a × (db ≡ before)
  Unchanged P (err e) db = db ≡ before

  unchanged : {A : Type 0} (r : Result A) {db : Db} → db ≡ before → Unchanged (λ _. Unit {0}) r db
  unchanged (ok a) e = (tt, e)
  unchanged (err x) e = e

  pub Ends-Keeps :
      {A : Type 0} {t : Async A}
      → Keeps (OnDb (λ db. db ≡ before)) t
      → Ends t (Unchanged (λ _. Unit {0}))
  Ends-Keeps {t} k = record {
    ends = λ w e. unchanged (run t w).0 (Keeps-run k w (record { on_db = e })).on_db;
  }

  weakened :
      {A : Type 0} {P Q : A → Type 0} (r : Result A) (db : Db)
      → ((a : A) → P a → Q a)
      → Unchanged P r db
      → Unchanged Q r db
  weakened (ok a) db f u = (f a u.0, u.1)
  weakened (err x) db f u = u

  pub Ends-weaken :
      {A : Type 0} {P Q : A → Type 0} {t : Async A}
      → Ends t (Unchanged P)
      → ((a : A) → P a → Q a)
      → Ends t (Unchanged Q)
  Ends-weaken {t} et f = record {
    ends = λ w e. weakened (run t w).0 (run t w).1.db f (et.ends w e);
  }

  pub Ends-pure : {A : Type 0} {P : A → Type 0} (a : A) → P a → Ends (pure a) (Unchanged P)
  unfolding pure run
  Ends-pure a p = record { ends = λ w e. (p, e) }

  pub Ends-throw :
      {A : Type 0} {Q : Result A → Db → Type 0} (x : Error) → Q (err x) before → Ends (throw x) Q
  unfolding throw run
  Ends-throw x q = record { ends = λ w e. rw e q }

  pub Ends-select :
      {A : Type 0} {P : A → Type 0} (f : Db → A) → P (f before) → Ends (select f) (Unchanged P)
  unfolding select query
  Ends-select {P} f p = record {
    ends = λ w e. elim (Bool-cases (is_down w)) [
      | inl d ↦ simp (run_laws, d) e
      | inr u ↦ simp (run_laws, u) (subst (λ db. P (f db)) (sym e) p, e)
    ];
  }

  -- A step that does not touch the database and does not fail.
  pub Ends-atomic :
      {A : Type 0} {P : A → Type 0} (f : World → A × World)
      → ((w : World) → P (f w).0)
      → ((w : World) → (f w).1.db ≡ w.db)
      → Ends (atomic (λ w. (ok (f w).0, (f w).1))) (Unchanged P)
  unfolding atomic run
  Ends-atomic f p same = record { ends = λ w e. (p w, same w ∙ e) }

  -- A statement that answers with its own result.
  pub Ends-query :
      {A : Type 0} {Q : Result A → Db → Type 0} (f : Instant → Uuid → Db → A × Db)
      → ((x : Error) → Q (err x) before)
      → ((now : Instant) (fresh : Uuid) → Q (ok (f now fresh before).0) (f now fresh before).1)
      → Ends (query f) Q
  unfolding query
  Ends-query {Q} f qe qo = record {
    ends = λ w e. elim (Bool-cases (is_down w)) [
      | inl d ↦ simp (run_laws, d) (subst (λ db. Q (err unavailable) db) (sym e) (qe unavailable))
      | inr u ↦
          simp (run_laws, u)
            (subst
              (λ db.
                Q (ok (f (now_of w) (w.oracle.fresh w.ticks) db).0)
                  (f (now_of w) (w.oracle.fresh w.ticks) db).1)
              (sym e) (qo (now_of w) (w.oracle.fresh w.ticks)))
    ];
  }

  resumed :
      {A B : Type 0} {P : A → Type 0} {Q : Result B → Db → Type 0} (r : Result A) (w : World)
      (f : A → Async B)
      → Unchanged P r w.db
      → ((x : Error) → Q (err x) before)
      → ((a : A) → P a → Ends (f a) Q)
      → Q (resume f (r, w)).0 (resume f (r, w)).1.db
  resumed (ok a) w f u qe qf = (qf a u.0).ends w u.1
  resumed {Q} (err x) w f u qe qf = subst (λ db. Q (err x) db) (sym u) (qe x)

  -- What comes first changes nothing, and its errors end the task.
  pub Ends-bind :
      {A B : Type 0} {P : A → Type 0} {Q : Result B → Db → Type 0} {m : Async A} (f : A → Async B)
      → Ends m (Unchanged P)
      → ((x : Error) → Q (err x) before)
      → ((a : A) → P a → Ends (f a) Q)
      → Ends (m >>= f) Q
  Ends-bind {m} f em qe qf = record {
    ends = λ w e. rw (run-bind m f w) (resumed (run m w).0 (run m w).1 f (em.ends w e) qe qf);
  }

  pub Ends-then :
      {A B : Type 0} {P : A → Type 0} {Q : Result B → Db → Type 0} {m : Async A} {n : Async B}
      → Ends m (Unchanged P)
      → ((x : Error) → Q (err x) before)
      → ((a : A) → P a → Ends n Q)
      → Ends (m >> n) Q
  unfolding ◌>>◌
  Ends-then {n} em qe qn = Ends-bind (λ _. n) em qe qn

  pub Ends-if :
      {A : Type 0} {Q : Result A → Db → Type 0} (b : Bool) {t t' : Async A}
      → (b ≡ true → Ends t Q)
      → (b ≡ false → Ends t' Q)
      → Ends (if b then t else t') Q
  Ends-if true ht hf = ht refl
  Ends-if false ht hf = hf refl

-- Whatever the database before.
pub record Leaves {A : Type 0} (t : Async A) (Q : Result A → Db → Type 0) : Type 0 where
  pub leaves : (w : World) → Q (run t w).0 (run t w).1.db

left :
    {A B : Type 0} {Q : Result B → Db → Type 0} (r : Result A) (w : World) (f : A → Async B)
    → ((x : Error) (db : Db) → Q (err x) db)
    → ((a : A) → Leaves (f a) Q)
    → Q (resume f (r, w)).0 (resume f (r, w)).1.db
left (ok a) w f qe qf = (qf a).leaves w
left (err x) w f qe qf = qe x w.db

pub Leaves-bind :
    {A B : Type 0} {Q : Result B → Db → Type 0} (m : Async A) (f : A → Async B)
    → ((x : Error) (db : Db) → Q (err x) db)
    → ((a : A) → Leaves (f a) Q)
    → Leaves (m >>= f) Q
Leaves-bind m f qe qf = record {
  leaves = λ w. rw (run-bind m f w) (left (run m w).0 (run m w).1 f qe qf);
}

pub Leaves-then :
    {A B : Type 0} {Q : Result B → Db → Type 0} (m : Async A) {n : Async B}
    → ((x : Error) (db : Db) → Q (err x) db)
    → Leaves n Q
    → Leaves (m >> n) Q
unfolding ◌>>◌
Leaves-then m {n} qe qn = Leaves-bind m (λ _. n) qe (λ _. qn)
