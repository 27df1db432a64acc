-- ===== src/Rules/Actions/Release.antt =====
-- rules/actions.rs: the in-flight guard of a state change, from `insert` to `remove`.
use myccmonitor.Prelude.{
  ℕ, ◌≡◌, refl, String, Bool, true, false, not, Option, some, List, [], ◌∷◌, ◌==◌, ==_refl,
  contains, filter, Bool-cases, inl, inr, arith,
}
use myccmonitor.Json.{Uuid}
use myccmonitor.Error.{unavailable, Result, ok, err}
use myccmonitor.Task.{◌>>=◌, ◌>>◌, run}
use myccmonitor.Task.Run.{run_laws}
use myccmonitor.World.{World, Async, tick, is_down, query, utc_now, guarded}
use myccmonitor.Host.{Host}
use myccmonitor.Store.Rows.{Monitor}
use myccmonitor.Store.Tables.{Summary, anti_loop, state_set}
use myccmonitor.Rules.Actions.{
  Chain, enter, leave, change_state, close, set_state_inside, set_state_of,
}

contains-leave :
    (target : Uuid) (s : List Uuid) → contains (filter (λ j. not (j == target)) s) target ≡ false
contains-leave target [] = refl
contains-leave target (j ∷ s) =
    let ih = contains-leave target s in
    elim (Bool-cases (j == target)) [ inl e ↦ rw e ih | inr e ↦ ground arith ]

-- What an action ends with, from the outcome of the chain that it set off.
abbrev pub closing : Uuid → String → String → Result ℕ → Result Summary
closing target before new_state (ok count) = ok (state_set target before new_state count)
closing target before new_state (err e) = err e

module _ (h : Host) (chain : Chain) (rule_id user_id : Uuid) (depth : ℕ) (target : Uuid)
    (new_state : String) (message : Option String) (ack : Option Bool) (hint : Option String)
    (m : Monitor) where
  closing_releases :
      (task : Async (Result ℕ)) (w w' : World) (r : Result ℕ)
      → run task w ≡ (ok r, w')
      → let after =
          run
            (task >>= λ r.
              leave target
              >> close h chain rule_id user_id depth target m.current_state new_state r)
            w in
        (after.0 ≡ closing target m.current_state new_state r)
        × ((contains after.1.in_flight target ≡ false) × (after.1.db ≡ w'.db))
  unfolding leave guarded
  closing_releases task w w' (ok count) e = simp (run_laws, e, contains-leave) (refl, (refl, refl))
  closing_releases task w w' (err x) e = simp (run_laws, e, contains-leave) (refl, (refl, refl))

  -- Where the state is written, whether the chained rules then succeed or fail, the guard is
  -- released, and the action has the number of the chained firings or the chain's error.
  pub set_state_inside_releases :
      (w w' : World) (r : Result ℕ)
      → run (change_state h chain rule_id user_id depth target new_state message ack hint m) w
        ≡ (ok r, w')
      → let after =
          run
            (set_state_inside h chain rule_id user_id depth target new_state message ack hint m)
            w in
        (after.0 ≡ closing target m.current_state new_state r)
        × ((contains after.1.in_flight target ≡ false) × (after.1.db ≡ w'.db))
  unfolding set_state_inside
  set_state_inside_releases w w' r e =
      closing_releases
        (change_state h chain rule_id user_id depth target new_state message ack hint m) w w' r e

  -- A monitor that is being changed within the same trigger is not changed again: the action is
  -- refused and nothing is written.
  pub set_state_of_refuses :
      (w : World)
      → contains w.in_flight target ≡ true
      → run
          (set_state_of h chain rule_id user_id depth target new_state message ack hint (some m))
          w
        ≡ (ok anti_loop, tick w)
  unfolding set_state_of enter guarded
  set_state_of_refuses w e = simp (run_laws, e)

  -- Where the write of the state fails, the action ends with the error of the call and leaves the
  -- monitor guarded, so that the next action on it in the same trigger is refused.
  pub set_state_of_leaks :
      (w : World)
      → contains w.in_flight target ≡ false
      → is_down (tick (tick w)) ≡ true
      → let after =
          run
            (set_state_of h chain rule_id user_id depth target new_state message ack hint (some m))
            w in
        (after.0 ≡ err unavailable)
        × ((after.1.in_flight ≡ target ∷ w.in_flight)
            × ((run
                  (set_state_of h chain rule_id user_id depth target new_state message ack hint
                    (some m))
                  after.1).0
                ≡ ok anti_loop))
  unfolding set_state_of set_state_inside change_state enter guarded query utc_now
  set_state_of_leaks w e down = simp (run_laws, e, down, ==_refl target) (refl, (refl, refl))
