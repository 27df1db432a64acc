-- ===== src/Task.antt =====
-- Asynchronous code. A task is a tree of atomic steps, the stretches between two `.await` points:
-- a step changes the shared state and goes on from the state that it found. `?` on an `Err` ends
-- the task. `join_all` interleaves its futures in any order, chosen by an oracle of the state.
pub mod Invariant
pub mod Run
use myccmonitor.Prelude.{ℕ, Bool, true, false, List, [], ◌∷◌}
use myccmonitor.Error.{Error, Result, ok, err}

pub data Task (S A : Type 0) : Type 0 where
  done : Result A → Task S A
  step : (S → S) → (S → Task S A) → Task S A

module _ {S : Type 0} where
  unfoldable pub bind_result : {A B : Type 0} → Result A → (A → Task S B) → Task S B
  bind_result (ok a) f = f a
  bind_result (err e) f = done (err e)

  infixl 5 ◌>>=◌ ◌>>◌
  unfoldable pub ◌>>=◌ : {A B : Type 0} → Task S A → (A → Task S B) → Task S B
  unfolding bind_result
  done r >>= f = bind_result r f
  step u k >>= f = step u (λ s. k s >>= f)

  unfoldable pub ◌>>◌ : {A B : Type 0} → Task S A → Task S B → Task S B
  unfolding ◌>>=◌
  m >> n = m >>= λ _. n

  unfoldable pub pure : {A : Type 0} → A → Task S A
  pure a = done (ok a)

  unfoldable pub throw : {A : Type 0} → Error → Task S A
  throw e = done (err e)

  -- One atomic step.
  unfoldable pub atomic : {A : Type 0} → (S → Result A × S) → Task S A
  atomic f = step (λ s. (f s).1) (λ s. done (f s).0)

  -- `match task.await { Ok … Err … }` and `let _ = task.await`
  unfoldable pub attempt : {A : Type 0} → Task S A → Task S (Result A)
  attempt (done r) = done (ok r)
  attempt (step u k) = step u (λ s. attempt (k s))

-- The sequential composition of a task and its state.
module _ {S : Type 0} where
  unfoldable pub run : {A : Type 0} → Task S A → S → Result A × S
  run (done r) s = (r, s)
  run (step u k) s = run (k s) (u s)

module _ {S : Type 0} (pick : S → Bool × S) where
  unfoldable pub after : {A B : Type 0} → Result A → Task S B → Task S (Result A × Result B)
  unfolding attempt
  after r (done q) = done (ok (r, q))
  after r (step v l) = step v (λ s. after r (l s))

  unfoldable pub before : {A B : Type 0} → Task S A → Result B → Task S (Result A × Result B)
  before (done r) q = done (ok (r, q))
  before (step u k) q = step u (λ s. before (k s) q)

  -- Two futures polled together: the oracle says which one makes its next step.
  unfoldable pub both : {A B : Type 0} → Task S A → Task S B → Task S (Result A × Result B)
  unfolding after before
  both (done r) t = after r t
  both (step u k) (done q) = before (step u k) q
  both (step u k) (step v l) =
      step (λ s. (pick s).1)
        (λ s. elim (pick s).0 [
          | true ↦ step u (λ s'. both (k s') (step v l))
          | false ↦ step v (λ s'. both (step u k) (l s'))
        ])

  abbrev collect : {A : Type 0} → Result A × Result (List (Result A)) → Task S (List (Result A))
  collect (r, ok rs) = done (ok (r ∷ rs))
  collect (r, err e) = done (err e)

  -- `futures::future::join_all`: the results in the order of the futures.
  unfoldable pub join_all : {A : Type 0} → List (Task S A) → Task S (List (Result A))
  unfolding both ◌>>=◌
  join_all [] = done (ok [])
  join_all (t ∷ ts) = both t (join_all ts) >>= collect
