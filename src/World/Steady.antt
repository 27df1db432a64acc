-- ===== src/World/Steady.antt =====
-- Tasks that only read, in a world where no call fails and the clock stands still: they answer,
-- and the answer is a function of the database.
use myccmonitor.Prelude.{ℕ, suc, ◌≡◌, refl, ap, ◌∙◌, Bool, true, false, List, if◌then◌else◌}
use myccmonitor.Json.{Uuid, Instant}
use myccmonitor.Error.{ok}
use myccmonitor.Task.{◌>>=◌, pure, attempt, run}
use myccmonitor.Task.Run.{resume, run-bind, run-attempt, run_laws}
use myccmonitor.Store.Tables.{Db}
use myccmonitor.World.{Oracle, World, Async, query, select, utc_now}

-- No call fails, and every clock says `now`.
pub record IsSteady (o : Oracle) (now : Instant) : Type 0 where
  pub up : (n : ℕ) → o.down n ≡ false
  pub still : (n : ℕ) → o.time n ≡ now

module _ (db : Db) (o : Oracle) where
  abbrev pub at : ℕ → List Uuid → World
  at n s = record { db = db; in_flight = s; ticks = n; oracle = o }

  -- The task comes to an answer with the property, and has changed nothing but the time.
  pub record Answers {A : Type 0} (t : Async A) (Q : A → Type 0) : Type 0 where
    pub answer :
        (n : ℕ) (s : List Uuid) → (n' : ℕ) × ((a : A) × ((run t (at n s) ≡ (ok a, at n' s)) × Q a))

  pub Answers-pure : {A : Type 0} (Q : A → Type 0) (a : A) → Q a → Answers (pure a) Q
  unfolding pure run
  Answers-pure Q a q = record { answer = λ n s. (n, (a, (refl, q))) }

  pub Answers-bind :
      {A B : Type 0} {P : A → Type 0} (Q : B → Type 0) {t : Async A} (g : A → Async B)
      → Answers t P
      → ((a : A) → P a → Answers (g a) Q)
      → Answers (t >>= g) Q
  Answers-bind {P} Q {t} g ht hg = record {
    answer = λ n s.
        let (n', (a, (e, p))) = ht.answer n s in
        let (n'', (b, (e', q))) = (hg a p).answer n' s in
        (n'', (b, (run-bind t g (at n s) ∙ (ap (resume g) e ∙ e'), q)));
  }

  pub Answers-attempt :
      {A : Type 0} {Q : A → Type 0} {t : Async A}
      → Answers t Q
      → Answers (attempt t) (λ r. (a : A) × ((r ≡ ok a) × Q a))
  Answers-attempt {t} ht = record {
    answer = λ n s.
        let (n', (a, (e, q))) = ht.answer n s in
        (n', (ok a, (run-attempt t (at n s) ∙ ap (λ r. (ok r.0, r.1)) e, (a, (refl, q)))));
  }

  pub Answers-if :
      {A : Type 0} (Q : A → Type 0) (b : Bool) {t t' : Async A}
      → (b ≡ true → Answers t Q)
      → (b ≡ false → Answers t' Q)
      → Answers (if b then t else t') Q
  Answers-if Q true ht hf = ht refl
  Answers-if Q false ht hf = hf refl

  module _ {now : Instant} (steady : IsSteady o now) where
    pub Answers-select :
        {A : Type 0} (Q : A → Type 0) (f : Db → A) → Q (f db) → Answers (select f) Q
    unfolding select query
    Answers-select Q f q = record {
      answer = λ n s. (suc n, (f db, (simp (run_laws, steady.up), q)));
    }

    pub Answers-utc_now : (Q : Instant → Type 0) → Q now → Answers utc_now Q
    unfolding utc_now
    Answers-utc_now Q q = record {
      answer = λ n s. (suc n, (now, (simp (run_laws, steady.still), q)));
    }
