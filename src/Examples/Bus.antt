-- ===== src/Examples/Bus.antt =====
-- The webhooks and the messages of the topics: webhooks/, bus/ and the queries that they run.
use myccmonitor.Prelude.{
  ◌≡◌, ◌↔◌, refl, String, none, some, List, [], ◌∷◌, ◌++◌, map, arith, if◌then◌else◌,
}
use myccmonitor.Prelude.Int.{pos}
use myccmonitor.Error.{unavailable, ok, err}
use myccmonitor.Task.{run}
use myccmonitor.World.{World, is_down}
use myccmonitor.Host.{Host}
use myccmonitor.Store.Rows.{WebhookConfig, BusMessage}
use myccmonitor.Store.Webhooks.{find_by_token}
use myccmonitor.Store.Confined.{Confined}
use myccmonitor.Webhooks.Event.{
  WebhookEnvelope, routing, dedup_key, join_key, key_resource, key_deployment, text_or_empty,
}
use myccmonitor.Webhooks.Event.Injective.{SameKey, dedup_key-SameKey}
use myccmonitor.Webhooks.Receiver.{receive, internal_server_error}
use myccmonitor.Webhooks.Receiver.Outcome.{Received, receive_answers}
use myccmonitor.Bus.Consume.{Message, consume, deliver_all, consume_ends}
use myccmonitor.Bus.Webhooks.{map_event, process_one}
use myccmonitor.Bus.Webhooks.Quiet.{without_keys, process_one_ignores, process_one_drops}
use myccmonitor.Bus.Webhooks.Transition.{Applied, apply_state_change-Applied}
use myccmonitor.Bus.Webhooks.Isolation.{process_one_isolated}
use myccmonitor.Examples.Fixture.{host, calm, world_of}
use myccmonitor.Examples.Rules.{fresh_rule, start, keys_of}

abbrev message : String → BusMessage
message org = record {
  token = "secret";
  user_id = 100;
  cc_org_id = org;
  raw_body = [];
  received_at_ms = 0;
}

abbrev stopped : WebhookEnvelope
stopped = record {
  event = "APPLICATION_STOP";
  date = none;
  application = some (record { id = "app_1"; owner_id = some "orga" });
  addon = none;
  deployment = none;
}

abbrev deployed : WebhookEnvelope
deployed = record stopped { event = "DEPLOYMENT_SUCCESS" }

abbrev bus_host : String → Host
bus_host org = record host {
  decode_bus_message = λ b. some (message org);
  decode_envelope = λ b. some stopped;
}

process_one_isolated_example :
    Confined 100 start.db (run (process_one (bus_host "orga") []) start).1.db
unfolding map_event
process_one_isolated_example =
    process_one_isolated (bus_host "orga") [] (message "orga") stopped start refl refl
      ("critical", (some "stopped", refl)) (keys_of "ok" fresh_rule refl)

-- A message of another organisation than the resource's owner.
process_one_ignores_example :
    let after = run (process_one (bus_host "orgb") []) start in
    (after.0 ≡ ok tt) × (without_keys after.1.db ≡ without_keys start.db)
unfolding routing
process_one_ignores_example = process_one_ignores (bus_host "orgb") [] start refl

-- The key of `stopped` is there, and has expired.
abbrev seen : World
seen =
    world_of
      (record start.db { dedup = record { key = "APPLICATION_STOP|app_1||"; expires_at = 1 } ∷ [] })
      calm

process_one_drops_example :
    let after = run (process_one (bus_host "orga") []) seen in
    (after.0 ≡ ok tt) × (without_keys after.1.db ≡ without_keys seen.db)
unfolding dedup_key join_key key_resource key_deployment text_or_empty
process_one_drops_example =
    process_one_drops (bus_host "orga") [] (message "orga") stopped seen refl refl refl refl

apply_state_change-Applied_example :
    Applied host (message "orga") 1 "critical" (some "stopped") 5 start
apply_state_change-Applied_example =
    apply_state_change-Applied host (message "orga") 1 "critical" (some "stopped") 5 start

consume_ends_example :
    let messages : List Message = (1, []) ∷ (2, []) ∷ [] in
    let process = process_one (bus_host "orga") in
    (run (consume process (map ok messages ++ [])) start
      ≡ (ok tt, deliver_all process messages start))
    × (run (consume process (map ok messages ++ (err unavailable ∷ []))) start
        ≡ (err unavailable, deliver_all process messages start))
consume_ends_example =
    consume_ends (process_one (bus_host "orga")) ((1, []) ∷ (2, []) ∷ []) unavailable [] start

abbrev config : WebhookConfig
config = record {
  id = 3;
  user_id = 100;
  cc_org_id = "orga";
  token = "secret";
  cc_webhook_id = none;
  subscribed_events = [];
  last_received_at = none;
  failure_count = pos 0;
  created_at = 0;
}

abbrev configured : World
configured = world_of (record start.db { webhooks = config ∷ [] }) calm

receive_answers_example :
    if is_down configured
    then ((run (receive "secret" []) configured).0 ≡ ok internal_server_error)
      × ((run (receive "secret" []) configured).1.db ≡ configured.db)
    else Received "secret" [] configured (find_by_token "secret" configured.db)
receive_answers_example = receive_answers "secret" [] configured

dedup_key-SameKey_example : (dedup_key stopped ≡ dedup_key deployed) ↔ SameKey stopped deployed
unfolding key_resource key_deployment
dedup_key-SameKey_example =
    dedup_key-SameKey stopped deployed
      (record { event = ground arith; resource = ground arith; deployment = tt })
      (record { event = ground arith; resource = ground arith; deployment = tt })
