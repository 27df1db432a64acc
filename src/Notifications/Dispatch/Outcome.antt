-- ===== src/Notifications/Dispatch/Outcome.antt =====
-- notifications/dispatch.rs: the three attempts to send, and what is recorded of them.
use myccmonitor.Prelude.{
  suc, ◌≡◌, refl, String, Bool, true, false, not, ◌&&◌, Option, any, ◌==◌, ==_refl, ◌∷◌,
  if◌then◌else◌, Bool-cases, inl, inr,
}
use myccmonitor.Json.{Uuid}
use myccmonitor.Host.{Host}
use myccmonitor.Store.Channels.{insert_alert, mark_notified, record_success, record_failure}
use myccmonitor.Error.{Error, dispatch_failed, unavailable, Result, ok, err}
use myccmonitor.Task.{run}
use myccmonitor.Task.Run.{run_laws}
use myccmonitor.World.{World, tick, is_down, query}
use myccmonitor.Store.Rows.{Monitor, Rule, NotificationChannel}
use myccmonitor.Store.Tables.{Db}
use myccmonitor.Notifications.Dispatch.{
  send_message, sleep, wait_before, send_loop, alert_of, alert_insert, finish_dispatch,
}

abbrev pub with_delivery : NotificationChannel → String → String → Db → Db
with_delivery c subject body db = record db {
  deliveries = record { channel_id = c.id; subject = subject; body = body } ∷ db.deliveries;
}

-- The calls of the three attempts fail: each attempt after the first follows a sleep.
abbrev pub all_down : World → Bool
all_down w = is_down w && (is_down (tick (tick w)) && is_down (tick (tick (tick (tick w)))))

-- The loop over the attempts always ends: it reports success exactly where one of the three calls
-- of the adapter answers, and then the message is delivered once, else nothing has changed.
pub send_loop_delivers :
    (c : NotificationChannel) (subject body : String) (e : Error) (w : World)
    → let after = run (send_loop 3 0 c subject body e) w in
      (after.0 ≡ ok (if all_down w then err unavailable else ok tt))
      × (after.1.db ≡ (if all_down w then w.db else with_delivery c subject body w.db))
unfolding send_loop wait_before sleep send_message query
send_loop_delivers c subject body e w = elim (Bool-cases (is_down w)) [
  | inr up ↦ simp (run_laws, up) (refl, refl)
  | inl down ↦ elim (Bool-cases (is_down (tick (tick w)))) [
    | inr up' ↦ simp (run_laws, down, up') (refl, refl)
    | inl down' ↦ elim (Bool-cases (is_down (tick (tick (tick (tick w)))))) [
      | inr up'' ↦ simp (run_laws, down, down', up'') (refl, refl)
      | inl down'' ↦ simp (run_laws, down, down', down'') (refl, refl)
    ]
  ]
]

abbrev pub is_sent : Result (Unit {0}) → Bool
is_sent (ok _) = true
is_sent (err e) = false

-- The alert with the id is there, and says whether the message was delivered.
abbrev pub HasAlert : Uuid → Bool → Db → Type 0
HasAlert id sent db =
    any (λ a. (a.id == id) && (if sent then a.delivered else not a.delivered)) db.alerts ≡ true

-- What a dispatch ends with, once its alert has an id.
abbrev pub dispatched : Result (Unit {0}) → Uuid → Result Uuid
dispatched (ok _) id = ok id
dispatched (err e) id = err (dispatch_failed e id)

module _ (h : Host) (u : Uuid) (rule : Rule) (m : Option Monitor) (c : NotificationChannel)
    (subject body kind : String) where
  -- However the bookkeeping calls of a dispatch fare, only the insertion of the alert counts: where
  -- it fails, the dispatch ends with its error and the alerts are as before; where it answers, the
  -- dispatch succeeds exactly if the message was sent, its alert is there under the id that the
  -- outcome has, and the alert says whether the message was delivered.
  pub finish_dispatch_alert :
      (sent : Result (Unit {0})) (w : World)
      → let after = run (finish_dispatch h u rule m c subject body kind sent) w in
        let id = w.oracle.fresh (suc w.ticks) in
        if is_down (tick w)
        then (after.0 ≡ err unavailable) × (after.1.db.alerts ≡ w.db.alerts)
        else (after.0 ≡ dispatched sent id) × HasAlert id (is_sent sent) after.1.db
  unfolding finish_dispatch alert_insert insert_alert mark_notified record_success record_failure
      alert_of query
  finish_dispatch_alert (ok _) w = elim (Bool-cases (is_down w)) [
    | inl e ↦ elim (Bool-cases (is_down (tick w))) [
      | inl e' ↦ simp (run_laws, e, e') (refl, refl)
      | inr e' ↦ elim (Bool-cases (is_down (tick (tick w)))) [
        | inl e'' ↦ simp (run_laws, e, e', e'', ==_refl) (refl, refl)
        | inr e'' ↦ simp (run_laws, e, e', e'', ==_refl) (refl, refl)
      ]
    ]
    | inr e ↦ elim (Bool-cases (is_down (tick w))) [
      | inl e' ↦ simp (run_laws, e, e') (refl, refl)
      | inr e' ↦ elim (Bool-cases (is_down (tick (tick w)))) [
        | inl e'' ↦ simp (run_laws, e, e', e'', ==_refl) (refl, refl)
        | inr e'' ↦ simp (run_laws, e, e', e'', ==_refl) (refl, refl)
      ]
    ]
  ]
  finish_dispatch_alert (err x) w = elim (Bool-cases (is_down w)) [
    | inl e ↦ elim (Bool-cases (is_down (tick w))) [
      | inl e' ↦ simp (run_laws, e, e') (refl, refl)
      | inr e' ↦ simp (run_laws, e, e', ==_refl) (refl, refl)
    ]
    | inr e ↦ elim (Bool-cases (is_down (tick w))) [
      | inl e' ↦ simp (run_laws, e, e') (refl, refl)
      | inr e' ↦ simp (run_laws, e, e', ==_refl) (refl, refl)
    ]
  ]
