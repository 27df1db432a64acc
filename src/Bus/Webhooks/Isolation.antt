-- ===== src/Bus/Webhooks/Isolation.antt =====
-- bus/consumer.rs: a webhook that sets a state stays within the rows of the webhook's user.
use myccmonitor.Prelude.{
  ℕ, ltb, ◌≡◌, String, Bool, true, not, Option, none, some, List, str_eq, Bool-cases, inl, inr,
  Option-cases, arith, find, any, [], ◌∷◌, sym, ◌∙◌,
}
use myccmonitor.Json.{Uuid, Instant}
use myccmonitor.Error.{Result}
use myccmonitor.Task.{Task, run}
use myccmonitor.Task.Invariant.{
  Keeps, Keeps-bind, Keeps-then, Keeps-pure, Keeps-attempt, Keeps-if, Keeps-run,
}
use myccmonitor.World.{World}
use myccmonitor.World.Laws.{OnDb, Keeps-query, Keeps-select, Keeps-select_bind, Keeps-utc_now}
use myccmonitor.Host.{Host}
use myccmonitor.Store.Rows.{Monitor, BusMessage, DedupKey}
use myccmonitor.Store.Tables.{Db}
use myccmonitor.Store.Ownership.{any-Within, is_own}
use myccmonitor.Store.Monitors.{is_at, find_by_cc_resource}
use myccmonitor.Store.Webhooks.{recorded, try_record}
use myccmonitor.Store.Confined.{
  Confined, Confined-refl, with_dedup, HasKeys, OwnsMonitor, monitor_key, monitor_owner,
}
use myccmonitor.Store.Confined.Writes.{set_state-Confined, insert_history-Confined}
use myccmonitor.Webhooks.Event.{WebhookEnvelope, Routing, routing, dedup_key}
use myccmonitor.Rules.Trigger.{webhook}
use myccmonitor.Rules.Actions.Isolation.{broadcast_keeps}
use myccmonitor.Rules.Exec.Isolation.{trigger_for_monitor_keeps}
use myccmonitor.Bus.Webhooks.{
  EventEffect, set_state, announce_change, apply_state_change, set_state_found, apply_effect,
  process_effect, process_routed, process_new, process_envelope, process_message, process_one,
  record_key, is_duplicate, map_event,
}

find_at-is_own :
    (u : Uuid) (org resource : String) (rows : List Monitor) {m : Monitor}
    → find (is_at u org resource) rows ≡ some m
    → any (is_own monitor_key monitor_owner u m.id) rows ≡ true
find_at-is_own u org resource [] e = cc
find_at-is_own u org resource (a ∷ rows) {m} e = elim (Bool-cases (is_at u org resource a)) [
  | inl y ↦ ground (arith, rw y at e)
  | inr n ↦ ground (arith, find_at-is_own u org resource rows (rw n at e))
]

module _ (u : Uuid) (before : Db) where
  -- What the lookup by resource finds is the user's monitor.
  abbrev FoundOwn : Option Monitor → Type 0
  FoundOwn none = Unit
  FoundOwn (some m) = OwnsMonitor u before m.id

  find_resource-Found :
      (org resource : String) (db : Db)
      → Confined u before db
      → FoundOwn (find_by_cc_resource u org resource db)
  unfolding find_by_cc_resource
  find_resource-Found org resource db c =
      elim (Option-cases (find (is_at u org resource) db.monitors)) [
        | inl e ↦ rw e tt
        | inr (m, e) ↦ rw e (
            sym (any-Within monitor_key monitor_owner u m.id before.monitors db.monitors c.monitors)
            ∙ find_at-is_own u org resource db.monitors e)
      ]

module _ (msg : BusMessage) (before : Db) (keys : HasKeys msg.user_id before) (h : Host) where
  abbrev IsKept : {A : Type 0} → Task World A → Type 0
  IsKept t = Keeps (OnDb (Confined msg.user_id before)) t

  announce_change_keeps :
      (id : Uuid) (message : Option String) (now : Instant) (o : Option (String × Instant))
      → OwnsMonitor msg.user_id before id
      → IsKept (announce_change h msg id message now o)
  unfolding announce_change
  announce_change_keeps id message now none mine = Keeps-pure _
  announce_change_keeps id message now (some (after, since)) mine =
      Keeps-then
        (Keeps-query _ (λ _ fresh db p.
          insert_history-Confined msg.user_id before keys id after message now "webhook" db mine p))
        (Keeps-then (broadcast_keeps msg.user_id before keys _ _) (
          Keeps-then
            (Keeps-attempt (trigger_for_monitor_keeps msg.user_id before keys h id webhook))
            (Keeps-pure _)))

  set_state_found_keeps :
      (s : String) (message : Option String) (now : Instant) (o : Option Monitor)
      → FoundOwn msg.user_id before o
      → IsKept (set_state_found h msg s message now o)
  unfolding set_state_found apply_state_change
  set_state_found_keeps s message now none mine = Keeps-pure _
  set_state_found_keeps s message now (some m) mine =
      Keeps-bind _
        (Keeps-query _ (λ now' fresh db p.
          set_state-Confined msg.user_id before keys m.id s message now' db mine p))
        (λ o. announce_change_keeps m.id message now o mine)

  apply_effect_keeps :
      (r : Routing) (now : Instant) (s : String) (message : Option String)
      → IsKept (apply_effect h msg r now (set_state s message))
  unfolding apply_effect
  apply_effect_keeps r now s message =
      Keeps-select_bind (FoundOwn msg.user_id before)
        (find_by_cc_resource msg.user_id msg.cc_org_id r.resource_id) _
        (find_resource-Found msg.user_id before msg.cc_org_id r.resource_id)
        (λ o mine. set_state_found_keeps s message now o mine)

  process_effect_keeps :
      (r : Routing) (s : String) (message : Option String) (o : Option EventEffect)
      → o ≡ some (set_state s message)
      → IsKept (process_effect h msg r o)
  unfolding process_effect
  process_effect_keeps r s message o e =
      rw e (Keeps-bind _ Keeps-utc_now (λ now. apply_effect_keeps r now s message))

  recorded-Confined :
      (key : String) (expires now : Instant) (db : Db) (o : Option DedupKey)
      → Confined msg.user_id before db
      → Confined msg.user_id before (recorded key expires now db o).1
  recorded-Confined key expires now db none c = with_dedup msg.user_id before c _
  recorded-Confined key expires now db (some row) c = elim (Bool-cases (ltb row.expires_at now)) [
    | inl e ↦ rw e (with_dedup msg.user_id before c _)
    | inr e ↦ rw e c
  ]

  record_key_keeps : (key : String) → IsKept (record_key key)
  unfolding record_key try_record
  record_key_keeps key =
      Keeps-bind _ Keeps-utc_now
        (λ expires. Keeps-query _ (λ now fresh db p. recorded-Confined key _ now db _ p))

  -- The event sets a state.
  abbrev pub SetsState : WebhookEnvelope → Type 0
  SetsState e =
      (s : String) × ((message : Option String) × (map_event e.event ≡ some (set_state s message)))

  process_routed_keeps :
      (e : WebhookEnvelope) (r : Option Routing) → SetsState e → IsKept (process_routed h msg e r)
  unfolding process_routed
  process_routed_keeps e none sets = Keeps-pure _
  process_routed_keeps e (some r) (s, (message, eq)) =
      Keeps-if (not (str_eq r.owner_id msg.cc_org_id)) (λ _. Keeps-pure _)
        (λ _. process_effect_keeps r s message (map_event e.event) eq)

  process_new_keeps :
      (e : WebhookEnvelope) (r : Result Bool) → SetsState e → IsKept (process_new h msg e r)
  unfolding process_new
  process_new_keeps e r sets =
      Keeps-if (is_duplicate r) (λ _. Keeps-pure _)
        (λ _. Keeps-then (Keeps-attempt (Keeps-select _)) (process_routed_keeps e (routing e) sets))

  process_envelope_keeps :
      (e : WebhookEnvelope) → SetsState e → IsKept (process_envelope h msg (some e))
  unfolding process_envelope
  process_envelope_keeps e sets =
      Keeps-bind _ (Keeps-attempt (record_key_keeps (dedup_key e)))
        (λ r. process_new_keeps e r sets)

-- Whatever calls fail and whatever rules run, a webhook with an event that sets a state leaves the
-- monitors, histories, rules, firings, channels, escalations and alerts (but for the time of their
-- delivery) of all users but its own as they were, and all readings, groups, members and
-- dependencies: where the keys of its user's monitors, rules and channels are unique in their
-- tables.
pub process_one_isolated :
    (h : Host) (payload : List ℕ) (msg : BusMessage) (e : WebhookEnvelope) (w : World)
    → h.decode_bus_message payload ≡ some msg
    → h.decode_envelope msg.raw_body ≡ some e
    → (s : String) × ((message : Option String) × (map_event e.event ≡ some (set_state s message)))
    → HasKeys msg.user_id w.db
    → Confined msg.user_id w.db (run (process_one h payload) w).1.db
unfolding process_one process_message
process_one_isolated h payload msg e w d d' sets keys =
    rw (d, d')
      ((Keeps-run (process_envelope_keeps msg w.db keys h e sets) w
        (record { on_db = Confined-refl msg.user_id w.db })).on_db)
