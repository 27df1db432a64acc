-- ===== src/Bus/Webhooks/Transition.antt =====
-- bus/consumer.rs, `apply_state_change`: what a change of state leaves behind on every branch.
use myccmonitor.Prelude.{
  ◌≡◌, refl, ap, String, Bool, false, Option, some, List, [], ◌∷◌, any, update_where, if◌then◌else◌,
  Bool-cases, inl, inr,
}
use myccmonitor.Json.{Uuid, Instant}
use myccmonitor.Error.{unavailable, ok, err}
use myccmonitor.Task.{run}
use myccmonitor.Task.Run.{run_laws}
use myccmonitor.World.{World, tick, is_down, now_of, query}
use myccmonitor.Host.{Host}
use myccmonitor.Store.Rows.{BusMessage}
use myccmonitor.Store.Tables.{Db, monitor_state}
use myccmonitor.Store.Monitors.{changes, with_state, set_state_if_changed, insert_history}
use myccmonitor.Rules.Trigger.{webhook}
use myccmonitor.Rules.Actions.{push_broadcast, broadcast_via_pg}
use myccmonitor.Rules.Exec.{trigger_for_monitor}
use myccmonitor.Bus.Webhooks.{announce_change, apply_state_change}

update_where_none :
    {A : Type 0} (p : A → Bool) (f : A → A) (xs : List A)
    → any p xs ≡ false
    → update_where p f xs ≡ xs
update_where_none p f [] e = refl
update_where_none p f (x ∷ xs) e = elim (Bool-cases (p x)) [
  | inl y ↦ cc (rw y at e)
  | inr n ↦ rw (n, update_where_none p f xs (rw n at e)) refl
]

-- The world after a call that answers with this database.
abbrev with_db : Db → World → World
with_db db w = tick (record w { db = db })

module _ (h : Host) (msg : BusMessage) (id : Uuid) (s : String) (message : Option String)
    (now : Instant) where
  abbrev pub state_set : World → Db
  state_set w = record w.db {
    monitors = update_where (changes id s) (with_state s message (now_of w)) w.db.monitors;
  }

  abbrev pub history_written : World → Db
  history_written w = insert_history id s message now "webhook" (state_set w)

  abbrev pub frame_sent : World → Db
  frame_sent w =
      push_broadcast msg.cc_org_id (monitor_state id s message (some (now_of w)))
        (history_written w)

  -- What is left of the change, and the outcome.
  abbrev pub Applied : World → Type 0
  Applied w =
      let after = run (apply_state_change h msg id s message now) w in
      if is_down w
      then (after.0 ≡ err unavailable) × (after.1.db ≡ w.db)
      else if any (changes id s) w.db.monitors
      then if is_down (tick w)
        then (after.0 ≡ err unavailable) × (after.1.db ≡ state_set w)
        else if is_down (tick (tick w))
        then (after.0 ≡ err unavailable) × (after.1.db ≡ history_written w)
        else (after.0 ≡ ok tt)
          × (after.1
              ≡ (run (trigger_for_monitor h msg.user_id id webhook)
                  (with_db (frame_sent w) (tick (tick w)))).1)
      else (after.0 ≡ ok tt) × (after.1.db ≡ w.db)

  pub apply_state_change-Applied : (w : World) → Applied w
  unfolding apply_state_change announce_change set_state_if_changed query broadcast_via_pg
  apply_state_change-Applied w = elim (Bool-cases (is_down w)) [
    | inl d ↦ simp (run_laws, d) (refl, refl)
    | inr u ↦ elim (Bool-cases (any (changes id s) w.db.monitors)) [
      | inr same ↦
          simp (run_laws, u, same)
            (refl, ap (λ ms. record w.db { monitors = ms }) (update_where_none _ _ _ same))
      | inl changed ↦ elim (Bool-cases (is_down (tick w))) [
        | inl d ↦ simp (run_laws, u, changed, d) (refl, refl)
        | inr u' ↦ elim (Bool-cases (is_down (tick (tick w)))) [
          | inl d ↦ simp (run_laws, u, changed, u', d) (refl, refl)
          | inr u'' ↦ simp (run_laws, u, changed, u', u'') (refl, refl)
        ]
      ]
    ]
  ]
