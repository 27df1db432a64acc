-- ===== src/Webhooks/Receiver.antt =====
-- webhooks/receiver.rs: the endpoint that Clever Cloud calls.
pub mod Outcome
use myccmonitor.Prelude.{ℕ, ◌/◌, String, Option, none, some, List}
use myccmonitor.Json.{Uuid}
use myccmonitor.Error.{Error, Result, ok, err}
use myccmonitor.Task.{◌>>=◌, ◌>>◌, pure, attempt}
use myccmonitor.World.{Async, query, select, utc_now}
use myccmonitor.Store.Rows.{WebhookConfig, BusMessage}
use myccmonitor.Store.Webhooks.{find_by_token, touch_last_received, publish}

pub data StatusCode : Type 0 where
  no_content unauthorized internal_server_error : StatusCode

unfoldable pub message_of : WebhookConfig → List ℕ → ℕ → BusMessage
message_of cfg body now = record {
  token = cfg.token;
  user_id = cfg.user_id;
  cc_org_id = cfg.cc_org_id;
  raw_body = body;
  received_at_ms = now / 1000;
}

unfoldable pub send_webhook : BusMessage → Async (Unit {0})
send_webhook msg = query (λ now fresh db. (tt, publish msg db))

unfoldable pub answer : Uuid → Result (Unit {0}) → Async StatusCode
answer id (err e) = pure internal_server_error
answer id (ok _) = do
  attempt (query (λ now fresh db. (tt, touch_last_received id now db)))
  pure no_content

unfoldable pub receive_for : List ℕ → Result (Option WebhookConfig) → Async StatusCode
unfolding message_of send_webhook answer
receive_for body (err e) = pure internal_server_error
receive_for body (ok none) = pure unauthorized
receive_for body (ok (some cfg)) = do
  now ← utc_now
  sent ← attempt (send_webhook (message_of cfg body now))
  answer cfg.id sent

unfoldable pub receive : String → List ℕ → Async StatusCode
unfolding receive_for
receive token body = do cfg ← attempt (select (find_by_token token)); receive_for body cfg
