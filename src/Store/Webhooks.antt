-- ===== src/Store/Webhooks.antt =====
-- db/webhook_configs.rs and db/webhook_dedup.rs.
use myccmonitor.Prelude.{
  ℕ, String, Bool, true, false, ◌&&◌, Option, none, some, List, ◌∷◌, if◌then◌else◌, ◌==◌, ltb, find,
  update_where, str_eq,
}
use myccmonitor.Prelude.Int.{pos}
use myccmonitor.Json.{Uuid, Instant}
use myccmonitor.Store.Rows.{WebhookConfig, DedupKey, BusMessage}
use myccmonitor.Store.Tables.{Db}

unfoldable pub find_by_token : String → Db → Option WebhookConfig
find_by_token token db = find (λ c. str_eq c.token token) db.webhooks

unfoldable pub touch_last_received : Uuid → Instant → Db → Db
touch_last_received id now db = record db {
  webhooks =
      update_where (λ c. c.id == id)
        (λ c. record c { last_received_at = some now; failure_count = pos 0 }) db.webhooks;
}

-- `ON CONFLICT (user_id, cc_org_id) DO UPDATE SET …` and `RETURNING *`.
abbrev pub is_webhook_of : Uuid → String → WebhookConfig → Bool
is_webhook_of user_id cc_org_id c = (c.user_id == user_id) && str_eq c.cc_org_id cc_org_id

unfoldable pub renewed : String → Option String → List String → WebhookConfig → WebhookConfig
renewed token cc_webhook_id events c = record c {
  token = token;
  cc_webhook_id = cc_webhook_id;
  subscribed_events = events;
  failure_count = pos 0;
}

abbrev pub created :
    Uuid
    → String
    → String
    → Option String
    → List String
    → Instant
    → Uuid
    → Db
    → Option WebhookConfig
    → WebhookConfig × Db
created user_id cc_org_id token cc_webhook_id events now fresh db (some c) = (
  renewed token cc_webhook_id events c,
  record db {
    webhooks =
        update_where (is_webhook_of user_id cc_org_id) (renewed token cc_webhook_id events)
          db.webhooks;
  },
)
created user_id cc_org_id token cc_webhook_id events now fresh db none =
    let c : WebhookConfig = record {
      id = fresh;
      user_id = user_id;
      cc_org_id = cc_org_id;
      token = token;
      cc_webhook_id = cc_webhook_id;
      subscribed_events = events;
      last_received_at = none;
      failure_count = pos 0;
      created_at = now;
    } in
    (c, record db { webhooks = c ∷ db.webhooks })

unfoldable pub create_webhook :
    Uuid → String → String → Option String → List String → Instant → Uuid → Db → WebhookConfig × Db
unfolding renewed
create_webhook user_id cc_org_id token cc_webhook_id events now fresh db =
    created user_id cc_org_id token cc_webhook_id events now fresh db
      (find (is_webhook_of user_id cc_org_id) db.webhooks)

-- A key that is there is updated where it has expired. `xmax = 0` holds of a row that the statement
-- inserted, and not of one that it updated.
abbrev pub recorded : String → Instant → Instant → Db → Option DedupKey → Bool × Db
recorded key expires_at now db none =
    (true, record db { dedup = record { key = key; expires_at = expires_at } ∷ db.dedup })
recorded key expires_at now db (some row) = (
  false,
  if ltb row.expires_at now
      then record db {
        dedup =
            update_where (λ r. str_eq r.key key) (λ r. record r { expires_at = expires_at })
              db.dedup;
      }
      else db,
)

unfoldable pub try_record : String → Instant → Instant → Db → Bool × Db
try_record key expires_at now db =
    recorded key expires_at now db (find (λ r. str_eq r.key key) db.dedup)

-- `send_webhook` of bus/producer.rs
unfoldable pub publish : BusMessage → Db → Db
publish msg db = record db { published = msg ∷ db.published }

-- `consumer.ack`
unfoldable pub acknowledge_message : ℕ → Db → Db
acknowledge_message id db = record db { acked = id ∷ db.acked }
