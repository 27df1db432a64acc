-- ===== src/Monitors/Sync/Upserts.antt =====
-- monitors/sync.rs: what the two loops of upserts keep and add.
use myccmonitor.Prelude.{
  ◌≡◌, refl, subst, String, Bool, true, false, not, ◌||◌, List, [], ◌∷◌, Option, none, some, any,
  filter, str_eq, str_eq_iff, map, All, ◌∙◌,
}
use myccmonitor.Prelude.Int.{pos, ltb_ℤ}
use myccmonitor.Json.{Uuid, Instant}
use myccmonitor.Task.Invariant.{Keeps, Keeps-bind, Keeps-then, Keeps-pure, Keeps-attempt, Keeps-if}
use myccmonitor.World.Laws.{OnDb, Keeps-query, Keeps-utc_now}
use myccmonitor.World.Moves.{
  Moves, Moves-bind, Moves-then, Moves-Keeps, Moves-query, Moves-both, Moves-pure, Moves-weaken,
}
use myccmonitor.Store.Rows.{Monitor}
use myccmonitor.Store.Tables.{Db}
use myccmonitor.Store.Monitors.{insert_history}
use myccmonitor.Store.Monitors.Cc.{MonitorInput, upsert_cc, upsert_rows}
use myccmonitor.Monitors.Sync.Rows.{belongs, stands_for, upsert-adds, upsert-stays, upsert-others}
use myccmonitor.Rules.Actions.{broadcast_via_pg, push_broadcast}
use myccmonitor.Rules.Cooldown.{seconds_since}
use myccmonitor.Monitors.Remote.{Remote}
use myccmonitor.Monitors.Sync.{
  report_state, record_since, record_sync_state, upsert_one, upsert_each,
}

module _ {B : Type 0} {P Q : B → Type 0} where
  All-map : (bs : List B) → All P bs → ((b : B) → P b → Q b) → All Q bs
  All-map [] h f = tt
  All-map (b ∷ bs) h f = (f b h.0, All-map bs h.1 f)

module _ {B : Type 0} {P Q R : B → Type 0} where
  pub All-zip : (bs : List B) → All P bs → All Q bs → ((b : B) → P b → Q b → R b) → All R bs
  All-zip [] h k f = tt
  All-zip (b ∷ bs) h k f = (f b h.0 k.0, All-zip bs h.1 k.1 f)

pub or_right : (a : Bool) {b : Bool} → b ≡ true → (a || b) ≡ true
or_right true e = refl
or_right false e = e

pub or_left : (a b : Bool) → a ≡ true → (a || b) ≡ true
or_left true b e = refl
or_left false b e = cc

module _ {B : Type 0} (id_of : B → String) where
  -- Each is among those listed.
  pub All-listed : (bs : List B) → All (λ b. any (λ k. str_eq (id_of b) k) (map id_of bs) ≡ true) bs
  All-listed [] = tt
  All-listed (b ∷ bs) = (
    rw ((str_eq_iff (id_of b) (id_of b)).1 refl) refl,
    All-map bs (All-listed bs) (λ b' e. or_right (str_eq (id_of b') (id_of b)) e),
  )

-- The monitors of all other users and organisations.
abbrev pub others : Uuid → String → List Monitor → List Monitor
others u org rows = filter (λ m. not (belongs u org m)) rows

-- Where the report of a state writes no monitor, it keeps what holds of the monitors.
module _ (R : List Monitor → Type 0) where
  abbrev pub OnRows : Db → Type 0
  OnRows db = R db.monitors

  report-Keeps :
      (m : Monitor) (org : String) (since : Option Instant)
      → Keeps (OnDb OnRows) (record_since m org since)
  unfolding record_since report_state broadcast_via_pg insert_history push_broadcast
  report-Keeps m org none = Keeps-pure tt
  report-Keeps m org (some since) = Keeps-bind _ Keeps-utc_now (λ now.
      Keeps-if (ltb_ℤ (pos 5) (seconds_since now since)) (λ _. Keeps-pure tt)
        (λ _.
          Keeps-then (Keeps-attempt (Keeps-query _ (λ now fresh db p. p)))
            (Keeps-then (Keeps-attempt (Keeps-query _ (λ now fresh db p. p))) (Keeps-pure tt))))

  record_sync_state-Keeps :
      (m : Monitor) (org : String) → Keeps (OnDb OnRows) (record_sync_state m org)
  unfolding record_sync_state
  record_sync_state-Keeps m org =
      Keeps-if (str_eq m.current_state "unknown") (λ _. Keeps-pure tt)
        (λ _. report-Keeps m org m.current_state_since)

module _ (remote : Remote) (u : Uuid) (org : String) where
  -- The user has a monitor for the resource.
  abbrev pub Has : String → String → Db → Type 0
  Has kind id db = any (stands_for u org kind id) db.monitors ≡ true

  module _ {A : Type 0} (input_of : A → MonitorInput) (id_of : A → String) (kind : String)
      (has_kind : (a : A) → (input_of a).kind ≡ kind)
      (in_org : (a : A) → (input_of a).cc_org_id ≡ some org)
      (has_id : (a : A) → (input_of a).cc_resource_id ≡ some (id_of a)) where
    upsert_each-Keeps :
        (R : List Monitor → Type 0)
        → ((a : A) (now : Instant) (fresh : Uuid) (rows : List Monitor)
            → R rows
            → R (upsert_rows u (input_of a) now fresh rows).1)
        → (as' : List A)
        → Keeps (OnDb (λ db. R db.monitors)) (upsert_each remote u org (map input_of as'))
    unfolding upsert_each upsert_one upsert_cc
    upsert_each-Keeps R step [] = Keeps-pure tt
    upsert_each-Keeps R step (a ∷ as') =
        Keeps-then
          (Keeps-bind _ (Keeps-query _ (λ now fresh db p. step a now fresh db.monitors p))
            (λ m. record_sync_state-Keeps R m org))
          (upsert_each-Keeps R step as')

    Has-Keeps :
        (k i : String) (as' : List A)
        → Keeps (OnDb (Has k i)) (upsert_each remote u org (map input_of as'))
    Has-Keeps k i as' =
        upsert_each-Keeps (λ rows. any (stands_for u org k i) rows ≡ true)
          (λ a now fresh rows p.
            upsert-stays u org (input_of a) (id_of a) (in_org a) (has_id a) now fresh k i rows p)
          as'

    pub others-Keeps :
        (base : List Monitor) (as' : List A)
        → Keeps
            (OnDb (λ db. others u org db.monitors ≡ base))
            (upsert_each remote u org (map input_of as'))
    others-Keeps base as' =
        upsert_each-Keeps (λ rows. others u org rows ≡ base)
          (λ a now fresh rows p.
            upsert-others u org (input_of a) (id_of a) (in_org a) (has_id a) now fresh rows ∙ p)
          as'

    upsert_one-Has :
        (a : A) → Moves (λ db. Unit {0}) (upsert_one remote u org (input_of a)) (Has kind (id_of a))
    unfolding upsert_one upsert_cc
    upsert_one-Has a =
        Moves-bind _
          (Moves-query _ (λ now fresh db _.
            subst
              (λ k.
                any (stands_for u org k (id_of a))
                  (upsert_cc u (input_of a) now fresh db).1.monitors
                ≡ true)
              (has_kind a)
              (upsert-adds u org (input_of a) (id_of a) (in_org a) (has_id a) now fresh
                db.monitors)))
          (λ m. Moves-Keeps (record_sync_state-Keeps _ m org))

    pub upsert_each-Has :
        (as' : List A)
        → Moves
            (λ db. Unit {0})
            (upsert_each remote u org (map input_of as'))
            (λ db. All (λ a. Has kind (id_of a) db) as')
    unfolding upsert_each
    upsert_each-Has [] = Moves-pure tt
    upsert_each-Has (a ∷ as') = Moves-then (upsert_one-Has a) (
        Moves-weaken (λ db p. (p, tt))
          (Moves-both (Moves-Keeps (Has-Keeps kind (id_of a) as')) (upsert_each-Has as')))

    pub All-Has-Keeps :
        {B : Type 0} (k : String) (id' : B → String) (bs : List B) (as' : List A)
        → Keeps
            (OnDb (λ db. All (λ b. Has k (id' b) db) bs))
            (upsert_each remote u org (map input_of as'))
    All-Has-Keeps k id' bs as' =
        upsert_each-Keeps (λ rows. All (λ b. any (stands_for u org k (id' b)) rows ≡ true) bs)
          (λ a now fresh rows p. All-map bs p (λ b q.
            upsert-stays u org (input_of a) (id_of a) (in_org a) (has_id a) now fresh k (id' b) rows
              q))
          as'
