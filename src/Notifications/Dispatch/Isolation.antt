-- ===== src/Notifications/Dispatch/Isolation.antt =====
-- notifications/dispatch.rs: a dispatch for a user stays within that user's rows (Store/Confined).
use myccmonitor.Prelude.{ℕ, zero, suc, ◌≡◌, refl, String, not, Option, none, some}
use myccmonitor.Json.{Uuid}
use myccmonitor.Error.{Error, unavailable, Result, ok, err}
use myccmonitor.Task.{Task}
use myccmonitor.Task.Invariant.{
  Keeps, Keeps-atomic, Keeps-bind, Keeps-then, Keeps-pure, Keeps-throw, Keeps-attempt, Keeps-if,
  Keeps-case,
}
use myccmonitor.World.{World}
use myccmonitor.World.Laws.{OnDb, Keeps-query, Keeps-select_bind, keeps_rules}
use myccmonitor.Host.{Host}
use myccmonitor.Store.Rows.{Monitor, Rule, NotificationChannel}
use myccmonitor.Store.Tables.{Db, Alert}
use myccmonitor.Store.Channels.{find_channel}
use myccmonitor.Store.Confined.{Confined, HasKeys, OwnsChannel}
use myccmonitor.Store.Confined.Writes.{
  record_success-Confined, record_failure-Confined, insert_alert-Confined, mark_notified-Confined,
  delivery-Confined,
}
use myccmonitor.Store.Confined.Lookups.{FoundChannel, find_channel-Found}
use myccmonitor.Notifications.Dispatch.{
  trigger_monitor, for_kind, send_message, wait_before, send_loop, alert_insert, finish_dispatch,
  send_to, dispatch,
}

module _ (u : Uuid) (before : Db) (keys : HasKeys u before) where
  abbrev IsKept : {A : Type 0} → Task World A → Type 0
  IsKept t = Keeps (OnDb (Confined u before)) t

  trigger_monitor_keeps : (ref : Option Uuid) → IsKept (trigger_monitor u ref)
  unfolding trigger_monitor
  trigger_monitor_keeps none = search keeps_rules
  trigger_monitor_keeps (some id) = search keeps_rules

  wait_before_keeps : (n : ℕ) → IsKept (wait_before n)
  unfolding wait_before
  wait_before_keeps zero = Keeps-pure tt
  wait_before_keeps (suc n) = Keeps-atomic _ (λ w p. record { on_db = p.on_db })

  send_message_keeps :
      (c : NotificationChannel) (subject body : String) → IsKept (send_message c subject body)
  unfolding send_message
  send_message_keeps c subject body =
      Keeps-query _ (λ now fresh db p. delivery-Confined u before keys _ db p)

  send_loop_keeps :
      (left made : ℕ) (c : NotificationChannel) (subject body : String) (e : Error)
      → IsKept (send_loop left made c subject body e)
  unfolding send_loop
  send_loop_keeps zero made c subject body e = Keeps-pure (err e)
  send_loop_keeps (suc left) made c subject body e = Keeps-then (wait_before_keeps made) (
      Keeps-bind _ (Keeps-attempt (send_message_keeps c subject body)) (λ r.
        Keeps-case r _ _ (λ _. Keeps-pure (ok tt))
          (λ e'. send_loop_keeps left (suc made) c subject body e')))

  alert_insert_keeps :
      (a : Uuid → Alert) → ((id : Uuid) → (a id).user_id ≡ u) → IsKept (alert_insert a)
  unfolding alert_insert
  alert_insert_keeps a own =
      Keeps-query _
        (λ now fresh db p. insert_alert-Confined u before keys (a fresh) db (own fresh) p)

  module _ (h : Host) (rule : Rule) (m : Option Monitor) (subject body kind : String) where
    finish_dispatch_keeps :
        (c : NotificationChannel) (sent : Result (Unit {0}))
        → OwnsChannel u before c.id
        → IsKept (finish_dispatch h u rule m c subject body kind sent)
    unfolding finish_dispatch
    finish_dispatch_keeps c (ok _) own =
        Keeps-then
          (Keeps-attempt (
            Keeps-query _
              (λ now fresh db p. record_success-Confined u before keys c.id now db own p)))
          (Keeps-bind _ (alert_insert_keeps _ (λ id. refl)) (λ alert_id.
            Keeps-then
              (Keeps-attempt (
                Keeps-query _
                  (λ now fresh db p. mark_notified-Confined u before keys alert_id now db p)))
              (Keeps-pure alert_id)))
    finish_dispatch_keeps c (err e) own =
        Keeps-then
          (Keeps-attempt (
            Keeps-query _ (λ now fresh db p.
              record_failure-Confined u before keys c.id (h.show_error e) now db own p)))
          (Keeps-bind _ (alert_insert_keeps _ (λ id. refl)) (λ alert_id. Keeps-throw _))

    send_to_keeps :
        (channel_id : Uuid) (o : Option NotificationChannel)
        → FoundChannel u before o
        → IsKept (send_to h u rule m subject body kind channel_id o)
    unfolding send_to
    send_to_keeps channel_id none own = Keeps-throw _
    send_to_keeps channel_id (some c) own =
        Keeps-if (not c.enabled) (λ _. Keeps-throw _)
          (λ _.
            Keeps-case (for_kind c.kind) _ _
              (λ _.
                Keeps-bind _ (send_loop_keeps 3 0 c subject body unavailable)
                  (λ sent. finish_dispatch_keeps c sent own))
              (λ e. Keeps-throw e))

  -- Every step of a dispatch for the user stays within that user's rows.
  pub dispatch_keeps :
      (h : Host) (channel_id : Uuid) (rule : Rule) (kind : String) (ref : Option Uuid)
      (message : String) (subject : Option String)
      → IsKept (dispatch h channel_id rule u kind ref message subject)
  unfolding dispatch
  dispatch_keeps h channel_id rule kind ref message subject =
      Keeps-bind _ (trigger_monitor_keeps ref) (λ m.
        Keeps-select_bind (FoundChannel u before) (find_channel u channel_id) _
          (find_channel-Found u before channel_id)
          (λ c own. send_to_keeps h rule m _ _ kind channel_id c own))
