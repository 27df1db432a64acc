-- ===== src/Webhooks/Receiver/Outcome.antt =====
-- webhooks/receiver.rs: what the endpoint answers, and what it leaves.
use myccmonitor.Prelude.{
  ℕ, ◌≡◌, refl, String, false, Option, none, some, List, ◌∷◌, if◌then◌else◌, Bool-cases, inl, inr,
}
use myccmonitor.Error.{ok}
use myccmonitor.Task.{run}
use myccmonitor.Task.Run.{run_laws}
use myccmonitor.World.{World, tick, is_down, now_of, query, select, utc_now}
use myccmonitor.Store.Rows.{WebhookConfig}
use myccmonitor.Store.Webhooks.{find_by_token, touch_last_received, publish}
use myccmonitor.Webhooks.Receiver.{
  no_content, unauthorized, internal_server_error, message_of, send_webhook, answer, receive_for,
  receive,
}

module _ (token : String) (body : List ℕ) (w : World) where
  -- What is left for the configuration that has the token.
  abbrev pub Received : Option WebhookConfig → Type 0
  Received none =
      let after = run (receive token body) w in (after.0 ≡ ok unauthorized) × (after.1.db ≡ w.db)
  Received (some cfg) =
      let after = run (receive token body) w in
      if is_down (tick (tick w))
      then (after.0 ≡ ok internal_server_error) × (after.1.db ≡ w.db)
      else (after.0 ≡ ok no_content)
        × (after.1.db.published ≡ message_of cfg body (now_of (tick w)) ∷ w.db.published)

  receive_for-Received :
      is_down w ≡ false → (o : Option WebhookConfig) → find_by_token token w.db ≡ o → Received o
  unfolding receive receive_for send_webhook answer select query utc_now touch_last_received publish
  receive_for-Received up none e = simp (run_laws, up, e) (refl, refl)
  receive_for-Received up (some cfg) e = elim (Bool-cases (is_down (tick (tick w)))) [
    | inl d ↦ simp (run_laws, up, e, d) (refl, refl)
    | inr u ↦ elim (Bool-cases (is_down (tick (tick (tick w))))) [
      | inl d ↦ simp (run_laws, up, e, u, d) (refl, refl)
      | inr u' ↦ simp (run_laws, up, e, u, u') (refl, refl)
    ]
  ]

-- The endpoint always answers. It is a server error, with the database as before, where the lookup
-- of the token fails; 401, with the database as before, where no configuration has the token; a
-- server error, with the database as before, where the message cannot be sent; and else 204, with
-- one message more on the topic, for the user and the organisation of the configuration, whether or
-- not the time of the webhook could be noted.
pub receive_answers :
    (token : String) (body : List ℕ) (w : World)
    → if is_down w
      then ((run (receive token body) w).0 ≡ ok internal_server_error)
        × ((run (receive token body) w).1.db ≡ w.db)
      else Received token body w (find_by_token token w.db)
unfolding receive receive_for select query
receive_answers token body w = elim (Bool-cases (is_down w)) [
  | inl d ↦ simp (run_laws, d) (refl, refl)
  | inr u ↦ rw u (receive_for-Received token body w u (find_by_token token w.db) refl)
]
