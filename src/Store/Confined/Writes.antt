-- ===== src/Store/Confined/Writes.antt =====
-- One lemma for each query of backend/src/db that rules write with: it stays within the user's rows.
use myccmonitor.Prelude.{
  ℕ, ◌≡◌, refl, ◌∙◌, String, Bool, Option, List, arith, ◌==◌, ==_refl, any, Bool-cases, inl, inr,
}
use myccmonitor.Json.{Uuid, Instant}
use myccmonitor.Store.Tables.{Db, Alert, Summary, WsFrame, Delivery}
use myccmonitor.Store.Ownership.{update-Within}
use myccmonitor.Store.Monitors.{
  changes, with_state, set_state_if_changed, set_acknowledged, same_change, insert_history,
}
use myccmonitor.Store.Rules.{update_outcome, insert_firing}
use myccmonitor.Store.Channels.{record_success, record_failure, insert_alert, mark_notified}
use myccmonitor.Rules.Actions.{push_broadcast, push_escalation}
use myccmonitor.Store.Confined.{
  monitor_key, monitor_owner, rule_key, rule_owner, channel_key, channel_owner, Confined, HasKeys,
  foreign_alerts-notified, with_monitors, with_rules, with_channels, with_history, with_firings,
  with_alerts, with_escalations, with_broadcasts, with_deliveries, OwnsMonitor, OwnsRule,
  OwnsChannel,
}

module _ (u : Uuid) (before : Db) (keys : HasKeys u before) where
  pub set_state-Confined :
      (i : Uuid) (s : String) (msg : Option String) (now : Instant) (db : Db)
      → OwnsMonitor u before i
      → Confined u before db
      → Confined u before (set_state_if_changed i s msg now db).1
  unfolding set_state_if_changed
  set_state-Confined i s msg now db own c = with_monitors u before c (
      update-Within monitor_key monitor_owner u i (changes i s) (with_state s msg now)
        before.monitors db.monitors (λ m e. ground arith) (λ m. (refl, refl)) (keys.monitors i own)
        c.monitors)

  pub set_acknowledged-Confined :
      (i : Uuid) (ack : Bool) (now : Instant) (db : Db)
      → OwnsMonitor u before i
      → Confined u before db
      → Confined u before (set_acknowledged i ack now db)
  unfolding set_acknowledged
  set_acknowledged-Confined i ack now db own c = with_monitors u before c (
      update-Within monitor_key monitor_owner u i (λ m. m.id == i) _ before.monitors db.monitors
        (λ m e. e) (λ m. (refl, refl)) (keys.monitors i own) c.monitors)

  pub insert_history-Confined :
      (i : Uuid) (s : String) (msg : Option String) (at : Instant) (source : String) (db : Db)
      → OwnsMonitor u before i
      → Confined u before db
      → Confined u before (insert_history i s msg at source db)
  unfolding insert_history
  insert_history-Confined i s msg at source db own c =
      elim (Bool-cases (any (same_change i at) db.history)) [
        | inl e ↦ rw e (with_history u before c c.history)
        | inr e ↦ rw e (with_history u before c (rw own c.history))
      ]

  pub push_broadcast-Confined :
      (org : String) (frame : WsFrame) (db : Db)
      → Confined u before db
      → Confined u before (push_broadcast org frame db)
  unfolding push_broadcast
  push_broadcast-Confined org frame db c = with_broadcasts u before c _

  pub push_escalation-Confined :
      (rule from : Uuid) (delay : ℕ) (now : Instant) (db : Db)
      → Confined u before db
      → Confined u before (push_escalation u rule from delay now db)
  unfolding push_escalation
  push_escalation-Confined rule from delay now db c =
      with_escalations u before c (rw (==_refl u) c.escalations)

  pub update_outcome-Confined :
      (i : Uuid) (outcome : String) (fired : Bool) (now : Instant) (db : Db)
      → OwnsRule u before i
      → Confined u before db
      → Confined u before (update_outcome i outcome fired now db)
  unfolding update_outcome
  update_outcome-Confined i outcome fired now db own c = with_rules u before c (
      update-Within rule_key rule_owner u i (λ r. r.id == i) _ before.rules db.rules (λ r e. e)
        (λ r. ground arith) (keys.rules i own) c.rules)

  pub insert_firing-Confined :
      (i : Uuid) (kind : String) (ref : Option Uuid) (outcome : String)
      (executed : Option (List Summary)) (msg : Option String) (now fresh : Uuid) (db : Db)
      → Confined u before db
      → Confined u before (insert_firing i u kind ref outcome executed msg now fresh db)
  unfolding insert_firing
  insert_firing-Confined i kind ref outcome executed msg now fresh db c =
      with_firings u before c (rw (==_refl u) c.firings)

  pub record_success-Confined :
      (i : Uuid) (now : Instant) (db : Db)
      → OwnsChannel u before i
      → Confined u before db
      → Confined u before (record_success i now db)
  unfolding record_success
  record_success-Confined i now db own c = with_channels u before c (
      update-Within channel_key channel_owner u i (λ r. r.id == i) _ before.channels db.channels
        (λ r e. e) (λ r. (refl, refl)) (keys.channels i own) c.channels)

  pub record_failure-Confined :
      (i : Uuid) (msg : String) (now : Instant) (db : Db)
      → OwnsChannel u before i
      → Confined u before db
      → Confined u before (record_failure i msg now db)
  unfolding record_failure
  record_failure-Confined i msg now db own c = with_channels u before c (
      update-Within channel_key channel_owner u i (λ r. r.id == i) _ before.channels db.channels
        (λ r e. e) (λ r. (refl, refl)) (keys.channels i own) c.channels)

  pub insert_alert-Confined :
      (a : Alert) (db : Db)
      → a.user_id ≡ u
      → Confined u before db
      → Confined u before (insert_alert a db)
  unfolding insert_alert
  insert_alert-Confined a db own c = with_alerts u before c (rw (own, ==_refl u) c.alerts)

  pub mark_notified-Confined :
      (i : Uuid) (now : Instant) (db : Db)
      → Confined u before db
      → Confined u before (mark_notified i now db)
  unfolding mark_notified
  mark_notified-Confined i now db c =
      with_alerts u before c (foreign_alerts-notified u i now db.alerts ∙ c.alerts)

  pub delivery-Confined :
      (xs : List Delivery) (db : Db)
      → Confined u before db
      → Confined u before (record db { deliveries = xs })
  delivery-Confined xs db c = with_deliveries u before c xs
