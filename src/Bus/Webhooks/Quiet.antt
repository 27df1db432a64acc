-- ===== src/Bus/Webhooks/Quiet.antt =====
-- bus/consumer.rs: the messages that change nothing but the record of their key.
use myccmonitor.Prelude.{
  ℕ, ◌≡◌, ◌⊎◌, refl, String, Bool, true, false, Option, none, some, List, [], ◌∷◌, any, find, ltb,
  str_eq, if◌then◌else◌, Bool-cases, inl, inr,
}
use myccmonitor.Error.{Result, ok}
use myccmonitor.Task.{◌>>=◌, ◌>>◌, pure, attempt, run}
use myccmonitor.Task.Run.{run_laws, run-pure}
use myccmonitor.Task.Invariant.{Keeps, Keeps-bind, Keeps-run}
use myccmonitor.World.{World, Async, tick, is_down, utc_now, query}
use myccmonitor.World.Laws.{OnDb, Keeps-query, Keeps-select, Keeps-utc_now}
use myccmonitor.Host.{Host}
use myccmonitor.Store.Rows.{BusMessage, DedupKey}
use myccmonitor.Store.Tables.{Db}
use myccmonitor.Store.Webhooks.{recorded, try_record}
use myccmonitor.Webhooks.Event.{WebhookEnvelope, Routing, routing, dedup_key}
use myccmonitor.Bus.Webhooks.{
  EventEffect, map_event, record_key, is_duplicate, process_effect, process_routed, process_new,
  process_envelope, process_message, process_one,
}

-- All of the database but the keys of the webhooks that were seen.
abbrev pub without_keys : Db → Db
without_keys db = record db { dedup = [] }

-- The task ends well, and changes no more than the keys.
record IsQuiet (before : Db) (t : Async (Unit {0})) : Type 0 where
  pub quiet :
      (w : World)
      → without_keys w.db ≡ without_keys before
      → ((run t w).0 ≡ ok tt) × (without_keys (run t w).1.db ≡ without_keys before)

-- What the message asks for: it is decoded, its resource and the owner are named, the owner is the
-- one of the webhook, and the event has an effect.
abbrev pub routed_effect : BusMessage → WebhookEnvelope → Option Routing → Option EventEffect
routed_effect msg e none = none
routed_effect msg e (some r) = if str_eq r.owner_id msg.cc_org_id then map_event e.event else none

abbrev pub envelope_effect : BusMessage → Option WebhookEnvelope → Option EventEffect
envelope_effect msg none = none
envelope_effect msg (some e) = routed_effect msg e (routing e)

abbrev pub message_effect : Host → Option BusMessage → Option EventEffect
message_effect h none = none
message_effect h (some msg) = envelope_effect msg (h.decode_envelope msg.raw_body)

abbrev pub effect_of : Host → List ℕ → Option EventEffect
effect_of h payload = message_effect h (h.decode_bus_message payload)

module _ (before : Db) where
  abbrev Same : Db → Type 0
  Same db = without_keys db ≡ without_keys before

  IsQuiet-pure : IsQuiet before (pure tt)
  unfolding run pure
  IsQuiet-pure = record { quiet = λ w p. (refl, p) }

  IsQuiet-attempt :
      {A : Type 0} {m : Async A} (f : Result A → Async (Unit {0}))
      → Keeps (OnDb Same) m
      → ((r : Result A) → IsQuiet before (f r))
      → IsQuiet before (attempt m >>= f)
  IsQuiet-attempt {m} f k q = record {
    quiet = λ w p.
        simp (run_laws)
          ((q (run m w).0).quiet (run m w).1 (Keeps-run k w (record { on_db = p })).on_db);
  }

  recorded-Same :
      (key : String) (expires now : ℕ) (db : Db) (o : Option DedupKey)
      → Same db
      → Same (recorded key expires now db o).1
  recorded-Same key expires now db none p = p
  recorded-Same key expires now db (some row) p = elim (Bool-cases (ltb row.expires_at now)) [
    | inl e ↦ rw e p
    | inr e ↦ rw e p
  ]

  record_key-Keeps : (key : String) → Keeps (OnDb Same) (record_key key)
  unfolding record_key try_record
  record_key-Keeps key =
      Keeps-bind _ Keeps-utc_now
        (λ expires. Keeps-query _ (λ now fresh db p. recorded-Same key _ now db _ p))

  module _ (h : Host) (msg : BusMessage) (e : WebhookEnvelope) where
    process_effect-IsQuiet :
        (r : Routing) (o : Option EventEffect)
        → o ≡ none
        → IsQuiet before (process_effect h msg r o)
    unfolding process_effect
    process_effect-IsQuiet r none eq = IsQuiet-pure
    process_effect-IsQuiet r (some x) eq = cc

    process_routed-IsQuiet :
        (r : Option Routing)
        → routed_effect msg e r ≡ none
        → IsQuiet before (process_routed h msg e r)
    unfolding process_routed
    process_routed-IsQuiet none eq = IsQuiet-pure
    process_routed-IsQuiet (some r) eq = elim (Bool-cases (str_eq r.owner_id msg.cc_org_id)) [
      | inl same ↦ rw same (process_effect-IsQuiet r (map_event e.event) (rw same at eq))
      | inr other ↦ rw other IsQuiet-pure
    ]

    process_new-IsQuiet :
        (r : Result Bool)
        → (is_duplicate r ≡ true) ⊎ (routed_effect msg e (routing e) ≡ none)
        → IsQuiet before (process_new h msg e r)
    unfolding process_new ◌>>=◌ ◌>>◌
    process_new-IsQuiet r c = elim (Bool-cases (is_duplicate r)) [
      | inl dup ↦ rw dup IsQuiet-pure
      | inr new ↦ rw new (elim c [
        | inl dup ↦ cc
        | inr eq ↦ IsQuiet-attempt _ (Keeps-select _) (λ _. process_routed-IsQuiet (routing e) eq)
      ])
    ]

  module _ (h : Host) where
    process_envelope-IsQuiet :
        (msg : BusMessage) (o : Option WebhookEnvelope)
        → envelope_effect msg o ≡ none
        → IsQuiet before (process_envelope h msg o)
    unfolding process_envelope
    process_envelope-IsQuiet msg none eq = IsQuiet-pure
    process_envelope-IsQuiet msg (some e) eq =
        IsQuiet-attempt _ (record_key-Keeps _) (λ r. process_new-IsQuiet h msg e r (inr eq))

    process_message-IsQuiet :
        (o : Option BusMessage) → message_effect h o ≡ none → IsQuiet before (process_message h o)
    unfolding process_message
    process_message-IsQuiet none eq = IsQuiet-pure
    process_message-IsQuiet (some msg) eq =
        process_envelope-IsQuiet msg (h.decode_envelope msg.raw_body) eq

-- A message that cannot be decoded, has no owner to route it by, names an owner that is not the one
-- of its webhook, or has an event without an effect ends without an error and leaves the whole
-- database as it was, but for the keys of the webhooks that were seen: whichever calls fail.
pub process_one_ignores :
    (h : Host) (payload : List ℕ) (w : World)
    → effect_of h payload ≡ none
    → let after = run (process_one h payload) w in
      (after.0 ≡ ok tt) × (without_keys after.1.db ≡ without_keys w.db)
unfolding process_one
process_one_ignores h payload w eq =
    (process_message-IsQuiet w.db h (h.decode_bus_message payload) eq).quiet w refl

find_of_any :
    {A : Type 0} (p : A → Bool) (xs : List A) → any p xs ≡ true → (a : A) × (find p xs ≡ some a)
find_of_any p [] e = cc
find_of_any p (x ∷ xs) e = elim (Bool-cases (p x)) [
  | inl y ↦ (x, rw y refl)
  | inr n ↦ let (a, q) = find_of_any p xs (rw n at e) in (a, rw n q)
]

-- The call that records the key answers false.
record_key_known :
    (key : String) (w : World)
    → any (λ r. str_eq r.key key) w.db.dedup ≡ true
    → is_down (tick w) ≡ false
    → (run (record_key key) w).0 ≡ ok false
unfolding record_key try_record utc_now query
record_key_known key w known up =
    let (row, e) = find_of_any (λ r. str_eq r.key key) w.db.dedup known in
    simp (run_laws, up, e) refl

run-attempt_bind :
    {A B : Type 0} (m : Async A) (f : Result A → Async B) (w : World)
    → run (attempt m >>= f) w ≡ run (f (run m w).0) (run m w).1
run-attempt_bind m f w = simp (run_laws) refl

process_envelope_known :
    (h : Host) (msg : BusMessage) (e : WebhookEnvelope) (w : World)
    → any (λ r. str_eq r.key (dedup_key e)) w.db.dedup ≡ true
    → is_down (tick w) ≡ false
    → let after = run (process_envelope h msg (some e)) w in
      (after.0 ≡ ok tt) × (without_keys after.1.db ≡ without_keys w.db)
unfolding process_envelope process_new
process_envelope_known h msg e w known up =
    let k = (Keeps-run (record_key-Keeps w.db (dedup_key e)) w (record { on_db = refl })).on_db in
    rw
      (
        run-attempt_bind (record_key (dedup_key e)) (process_new h msg e) w,
        record_key_known (dedup_key e) w known up,
        run-pure,
      )
      (refl, k)

-- A webhook whose key was seen before is dropped, also where the key has expired, as long as the
-- call that records the key answers: the message ends without an error and leaves the whole
-- database as it was, but for the keys.
pub process_one_drops :
    (h : Host) (payload : List ℕ) (msg : BusMessage) (e : WebhookEnvelope) (w : World)
    → h.decode_bus_message payload ≡ some msg
    → h.decode_envelope msg.raw_body ≡ some e
    → any (λ r. str_eq r.key (dedup_key e)) w.db.dedup ≡ true
    → is_down (tick w) ≡ false
    → let after = run (process_one h payload) w in
      (after.0 ≡ ok tt) × (without_keys after.1.db ≡ without_keys w.db)
unfolding process_one process_message
process_one_drops h payload msg e w d d' known up =
    rw (d, d') (process_envelope_known h msg e w known up)
