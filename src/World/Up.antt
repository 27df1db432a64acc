-- ===== src/World/Up.antt =====
-- Tasks that end well in a world where no call fails.
use myccmonitor.Prelude.{ℕ, ◌≡◌, refl, Bool, true, false, if◌then◌else◌}
use myccmonitor.Json.{Uuid, Instant}
use myccmonitor.Error.{Result, ok}
use myccmonitor.Task.{◌>>=◌, ◌>>◌, pure, attempt, run}
use myccmonitor.Task.Run.{resume, run-bind, run-attempt, run_laws}
use myccmonitor.Store.Tables.{Db}
use myccmonitor.World.{Oracle, World, Async, query, select, ask, utc_now}

pub record IsUp (o : Oracle) : Type 0 where
  pub up : (n : ℕ) → o.down n ≡ false

-- The task comes to an answer.
pub record Succeeds {A : Type 0} (t : Async A) : Type 0 where
  pub succeeds :
      (w : World) → IsUp w.oracle → (a : A) × (((run t w).0 ≡ ok a) × IsUp (run t w).1.oracle)

pub Succeeds-pure : {A : Type 0} (a : A) → Succeeds (pure a)
unfolding pure run
Succeeds-pure a = record { succeeds = λ w up. (a, (refl, up)) }

pub Succeeds-query : {A : Type 0} (f : Instant → Uuid → Db → A × Db) → Succeeds (query f)
unfolding query
Succeeds-query f = record { succeeds = λ w up. simp (run_laws, up.up) (_, (refl, up)) }

pub Succeeds-select : {A : Type 0} (f : Db → A) → Succeeds (select f)
unfolding select
Succeeds-select f = Succeeds-query (λ now fresh db. (f db, db))

pub Succeeds-ask : {A : Type 0} (f : ℕ → A) → Succeeds (ask f)
unfolding ask
Succeeds-ask f = record { succeeds = λ w up. simp (run_laws, up.up) (_, (refl, up)) }

pub Succeeds-utc_now : Succeeds utc_now
unfolding utc_now
Succeeds-utc_now = record { succeeds = λ w up. simp (run_laws) (_, (refl, up)) }

resumed :
    {A B : Type 0} (r : Result A) (w : World) (f : A → Async B)
    → IsUp w.oracle
    → (a : A) → r ≡ ok a
    → ((a : A) → Succeeds (f a))
    → (b : B) × (((resume f (r, w)).0 ≡ ok b) × IsUp (resume f (r, w)).1.oracle)
resumed r w f up a e g = rw e ((g a).succeeds w up)

pub Succeeds-bind :
    {A B : Type 0} {m : Async A} (f : A → Async B)
    → Succeeds m
    → ((a : A) → Succeeds (f a))
    → Succeeds (m >>= f)
Succeeds-bind {m} f hm hf = record {
  succeeds = λ w up.
      let (a, (e, up')) = hm.succeeds w up in
      rw (run-bind m f w) (resumed (run m w).0 (run m w).1 f up' a e hf);
}

pub Succeeds-then :
    {A B : Type 0} {m : Async A} {n : Async B} → Succeeds m → Succeeds n → Succeeds (m >> n)
unfolding ◌>>◌
Succeeds-then hm hn = Succeeds-bind _ hm (λ _. hn)

pub Succeeds-attempt : {A : Type 0} {m : Async A} → Succeeds m → Succeeds (attempt m)
Succeeds-attempt {m} hm = record {
  succeeds = λ w up.
      let (a, (e, up')) = hm.succeeds w up in rw (run-attempt m w) ((run m w).0, (refl, up'));
}

pub Succeeds-if :
    {A : Type 0} (b : Bool) {t t' : Async A}
    → Succeeds t
    → Succeeds t'
    → Succeeds (if b then t else t')
Succeeds-if true ht hf = ht
Succeeds-if false ht hf = hf
