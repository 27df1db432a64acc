-- ===== src/Task/Run.antt =====
-- Running a task to its end: the laws of `run`, used as equations where a task is followed step
-- by step.
use myccmonitor.Prelude.{◌≡◌, refl}
use myccmonitor.Error.{Error, Result, ok, err}
use myccmonitor.Task.{Task, done, step, bind_result, ◌>>=◌, ◌>>◌, pure, throw, atomic, attempt, run}

module _ {S : Type 0} where
  abbrev pub resume : {A B : Type 0} → (A → Task S B) → Result A × S → Result B × S
  resume f (ok a, s) = run (f a) s
  resume f (err e, s) = (err e, s)

  run-bind_result :
      {A B : Type 0} (r : Result A) (f : A → Task S B) (s : S)
      → run (bind_result r f) s ≡ resume f (r, s)
  unfolding bind_result run
  run-bind_result (ok a) f s = refl
  run-bind_result (err e) f s = refl

  pub run-bind :
      {A B : Type 0} (m : Task S A) (f : A → Task S B) (s : S)
      → run (m >>= f) s ≡ resume f (run m s)
  unfolding run ◌>>=◌
  run-bind (done r) f s = run-bind_result r f s
  run-bind (step u k) f s = run-bind (k s) f (u s)

  pub run-then :
      {A B : Type 0} (m : Task S A) (n : Task S B) (s : S)
      → run (m >> n) s ≡ resume (λ _. n) (run m s)
  unfolding ◌>>◌
  run-then m n s = run-bind m (λ _. n) s

  pub run-atomic : {A : Type 0} (f : S → Result A × S) (s : S) → run (atomic f) s ≡ f s
  unfolding run atomic
  run-atomic f s = refl

  pub run-pure : {A : Type 0} (a : A) (s : S) → run (pure a) s ≡ (ok a, s)
  unfolding run pure
  run-pure a s = refl

  pub run-throw : {A : Type 0} (e : Error) (s : S) → run (throw {A = A} e) s ≡ (err e, s)
  unfolding run throw
  run-throw e s = refl

  pub run-attempt :
      {A : Type 0} (m : Task S A) (s : S) → run (attempt m) s ≡ (ok (run m s).0, (run m s).1)
  unfolding run attempt
  run-attempt (done r) s = refl
  run-attempt (step u k) s = run-attempt (k s) (u s)

pub ruleset run_laws = (run-bind, run-then, run-atomic, run-pure, run-throw, run-attempt)
