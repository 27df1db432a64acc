-- ===== src/World.antt =====
-- The state that asynchronous code runs on: the database, the in-flight set of the chain
-- (rules/exec.rs, `InFlight`), and an oracle for what the environment decides: which calls fail,
-- what the clock says, which future is polled next, which identifiers `gen_random_uuid()` draws.
pub mod Laws
pub mod Moves
pub mod Post
pub mod Steady
pub mod Up
use myccmonitor.Prelude.{ℕ, suc, Bool, List, if◌then◌else◌}
use myccmonitor.Json.{Uuid, Instant}
use myccmonitor.Error.{Error, unavailable, Result, ok, err}
use myccmonitor.Task.{Task, atomic}
use myccmonitor.Store.Tables.{Db}

-- Each answer is indexed by the number of steps made so far.
pub record Oracle : Type 0 where
  pub down : ℕ → Bool
  pub time : ℕ → Instant
  pub pick : ℕ → Bool
  pub fresh : ℕ → Uuid

pub record World : Type 0 where
  pub db : Db
  pub in_flight : List Uuid
  pub ticks : ℕ
  pub oracle : Oracle

abbrev pub Async : Type 0 → Type 0
Async A = Task World A

abbrev pub tick : World → World
tick w = record w { ticks = suc w.ticks }

abbrev pub now_of : World → Instant
now_of w = w.oracle.time w.ticks

abbrev pub is_down : World → Bool
is_down w = w.oracle.down w.ticks

-- The scheduler of `join_all`.
abbrev pub pick : World → Bool × World
pick w = (w.oracle.pick w.ticks, tick w)

-- A call that leaves the process: it fails, and changes nothing, or it answers. `now` is the
-- server's clock and `fresh` an identifier that it may draw.
abbrev pub run_query : {A : Type 0} → (Instant → Uuid → Db → A × Db) → World → Result A × World
run_query f w =
    if is_down w
    then (err unavailable, tick w)
    else let r = f (now_of w) (w.oracle.fresh w.ticks) w.db in
      (ok r.0, tick (record w { db = r.1 }))

unfoldable pub query : {A : Type 0} → (Instant → Uuid → Db → A × Db) → Async A
query f = atomic (run_query f)

-- A query that only reads.
unfoldable pub select : {A : Type 0} → (Db → A) → Async A
unfolding query
select f = query (λ now fresh db. (f db, db))

-- A call of a service outside, whose answer is its own: it may differ from step to step.
abbrev pub run_ask : {A : Type 0} → (ℕ → A) → World → Result A × World
run_ask f w = if is_down w then (err unavailable, tick w) else (ok (f w.ticks), tick w)

unfoldable pub ask : {A : Type 0} → (ℕ → A) → Async A
ask f = atomic (run_ask f)

-- `Utc::now()`
abbrev pub run_utc_now : World → Result Instant × World
run_utc_now w = (ok (now_of w), tick w)

unfoldable pub utc_now : Async Instant
utc_now = atomic run_utc_now

-- A stretch of code between two awaits that works on the in-flight set.
abbrev pub run_guarded : {A : Type 0} → (List Uuid → A × List Uuid) → World → Result A × World
run_guarded f w = let r = f w.in_flight in (ok r.0, tick (record w { in_flight = r.1 }))

unfoldable pub guarded : {A : Type 0} → (List Uuid → A × List Uuid) → Async A
guarded f = atomic (run_guarded f)
