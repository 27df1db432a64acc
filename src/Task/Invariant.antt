-- ===== src/Task/Invariant.antt =====
-- Properties of the shared state that every step of a task keeps, in every interleaving.
use myccmonitor.Prelude.{◌≡◌, refl, Bool, true, false, List, [], ◌∷◌, All, subst, if◌then◌else◌}
use myccmonitor.Error.{Error, Result, ok, err}
use myccmonitor.Task.{
  Task, done, step, bind_result, ◌>>=◌, ◌>>◌, pure, throw, atomic, attempt, run, after, before,
  both, collect, join_all,
}

-- Every step keeps `P`, whatever the state that it finds, so long as `P` holds of it.
pub data Keeps {S : Type 0} (P : S → Type 0) {A : Type 0} : Task S A → Type 0 where
  keeps_done : (r : Result A) → Keeps P (done r)
  keeps_step :
      {u : S → S} {k : S → Task S A}
      → ((s : S) → P s → P (u s))
      → ((s : S) → P s → Keeps P (k s))
      → Keeps P (step u k)

module _ {S : Type 0} {P : S → Type 0} where
  Keeps-bind_result :
      {A B : Type 0} (r : Result A) (f : A → Task S B)
      → ((a : A) → r ≡ ok a → Keeps P (f a))
      → Keeps P (bind_result r f)
  unfolding bind_result
  Keeps-bind_result (ok a) f kf = kf a refl
  Keeps-bind_result (err e) f kf = keeps_done (err e)

  pub Keeps-bind :
      {A B : Type 0} {m : Task S A} (f : A → Task S B)
      → Keeps P m
      → ((a : A) → Keeps P (f a))
      → Keeps P (m >>= f)
  unfolding ◌>>=◌
  Keeps-bind f (keeps_done r) kf = Keeps-bind_result r f (λ a _. kf a)
  Keeps-bind f (keeps_step hu hk) kf = keeps_step hu (λ s p. Keeps-bind f (hk s p) kf)

  pub Keeps-then :
      {A B : Type 0} {m : Task S A} {n : Task S B} → Keeps P m → Keeps P n → Keeps P (m >> n)
  unfolding ◌>>◌
  Keeps-then hm hn = Keeps-bind _ hm (λ _. hn)

  pub Keeps-pure : {A : Type 0} (a : A) → Keeps P (pure a)
  unfolding pure
  Keeps-pure a = keeps_done (ok a)

  pub Keeps-throw : {A : Type 0} (e : Error) → Keeps P (throw {A = A} e)
  unfolding throw
  Keeps-throw e = keeps_done (err e)

  pub Keeps-atomic :
      {A : Type 0} (f : S → Result A × S) → ((s : S) → P s → P (f s).1) → Keeps P (atomic f)
  unfolding atomic
  Keeps-atomic f h = keeps_step h (λ s _. keeps_done (f s).0)

  -- A query whose answer is a fact `Q` about the state that outlives it.
  pub Keeps-atomic_bind :
      {A B : Type 0} (Q : Result A → Type 0) (f : S → Result A × S) (g : A → Task S B)
      → ((s : S) → P s → P (f s).1)
      → ((s : S) → P s → Q (f s).0)
      → ((a : A) → Q (ok a) → Keeps P (g a))
      → Keeps P (atomic f >>= g)
  unfolding atomic ◌>>=◌
  Keeps-atomic_bind Q f g h q kg =
      keeps_step h (λ s p. Keeps-bind_result (f s).0 g (λ a e. kg a (subst Q e (q s p))))

  pub Keeps-attempt : {A : Type 0} {m : Task S A} → Keeps P m → Keeps P (attempt m)
  unfolding attempt
  Keeps-attempt (keeps_done r) = keeps_done (ok r)
  Keeps-attempt (keeps_step hu hk) = keeps_step hu (λ s p. Keeps-attempt (hk s p))

  pub Keeps-if :
      {A : Type 0} (b : Bool) {m n : Task S A}
      → (b ≡ true → Keeps P m)
      → (b ≡ false → Keeps P n)
      → Keeps P (if b then m else n)
  Keeps-if true hm hn = hm refl
  Keeps-if false hm hn = hn refl

  pub Keeps-case :
      {A B : Type 0} (r : Result A) (f : A → Task S B) (g : Error → Task S B)
      → ((a : A) → Keeps P (f a))
      → ((e : Error) → Keeps P (g e))
      → Keeps P (elim r [ ok a ↦ f a | err e ↦ g e ])
  Keeps-case (ok a) f g hf hg = hf a
  Keeps-case (err e) f g hf hg = hg e

  pub Keeps-run : {A : Type 0} {m : Task S A} → Keeps P m → (s : S) → P s → P (run m s).1
  unfolding run
  Keeps-run (keeps_done r) s p = p
  Keeps-run (keeps_step {u} hu hk) s p = Keeps-run (hk s p) (u s) (hu s p)

  module _ (pick : S → Bool × S) (keep : (s : S) → P s → P (pick s).1) where
    Keeps-after :
        {A B : Type 0} (r : Result A) {t : Task S B} → Keeps P t → Keeps P (after pick r t)
    unfolding after
    Keeps-after r (keeps_done q) = keeps_done (ok (r, q))
    Keeps-after r (keeps_step hu hk) = keeps_step hu (λ s p. Keeps-after r (hk s p))

    Keeps-before :
        {A B : Type 0} {t : Task S A} (q : Result B) → Keeps P t → Keeps P (before pick t q)
    unfolding before
    Keeps-before q (keeps_done r) = keeps_done (ok (r, q))
    Keeps-before q (keeps_step hu hk) = keeps_step hu (λ s p. Keeps-before q (hk s p))

    Keeps-choose :
        {A : Type 0} (b : Bool) {m n : Task S A}
        → Keeps P m
        → Keeps P n
        → Keeps P (elim b [ true ↦ m | false ↦ n ])
    Keeps-choose true hm hn = hm
    Keeps-choose false hm hn = hn

    pub Keeps-both :
        {A B : Type 0} {m : Task S A} {n : Task S B}
        → Keeps P m
        → Keeps P n
        → Keeps P (both pick m n)
    unfolding both
    Keeps-both (keeps_done r) hn = Keeps-after r hn
    Keeps-both (keeps_step hu hk) (keeps_done q) = Keeps-before q (keeps_step hu hk)
    Keeps-both (keeps_step {u} {k} hu hk) (keeps_step {u = v} {k = l} hv hl) =
        keeps_step keep (λ s p.
          Keeps-choose (pick s).0
            (keeps_step hu (λ s' p'. Keeps-both (hk s' p') (keeps_step hv hl)))
            (keeps_step hv (λ s' p'. Keeps-both (keeps_step hu hk) (hl s' p'))))

    Keeps-collect :
        {A : Type 0} (r : Result A × Result (List (Result A))) → Keeps P (collect pick r)
    Keeps-collect (r, ok rs) = keeps_done (ok (r ∷ rs))
    Keeps-collect (r, err e) = keeps_done (err e)

    pub Keeps-join_all :
        {A : Type 0} (ts : List (Task S A)) → All (Keeps P) ts → Keeps P (join_all pick ts)
    unfolding join_all
    Keeps-join_all [] h = keeps_done (ok [])
    Keeps-join_all (t ∷ ts) h =
        Keeps-bind (collect pick) (Keeps-both h.0 (Keeps-join_all ts h.1)) Keeps-collect
