-- ===== src/Store/Channels/Saved.antt =====
-- db/notification_channels.rs: the queries of the handlers.
use myccmonitor.Prelude.{
  ℕ, String, Bool, not, ◌&&◌, Option, none, ◌∷◌, ◌==◌, filter, find, count_by, update_where,
}
use myccmonitor.Prelude.Int.{pos}
use myccmonitor.Json.{Uuid, Instant, Json}
use myccmonitor.Store.Rows.{NotificationChannel}
use myccmonitor.Store.Tables.{Db}

pub record UpsertChannel : Type 0 where
  pub kind : String
  pub name : String
  pub config : Json
  pub enabled : Bool

abbrev pub is_channel_of : Uuid → Uuid → NotificationChannel → Bool
is_channel_of user_id id c = (c.id == id) && (c.user_id == user_id)

unfoldable pub new_channel : Uuid → UpsertChannel → Instant → Uuid → NotificationChannel
new_channel user_id input now fresh = record {
  id = fresh;
  user_id = user_id;
  kind = input.kind;
  name = input.name;
  config = input.config;
  enabled = input.enabled;
  failure_count = pos 0;
  last_success_at = none;
  last_failure_at = none;
  last_failure_message = none;
  created_at = now;
  updated_at = now;
}

unfoldable pub create_channel :
    Uuid → UpsertChannel → Instant → Uuid → Db → NotificationChannel × Db
unfolding new_channel
create_channel user_id input now fresh db = (
  new_channel user_id input now fresh,
  record db { channels = new_channel user_id input now fresh ∷ db.channels },
)

unfoldable pub changed_channel : UpsertChannel → Instant → NotificationChannel → NotificationChannel
changed_channel input now c = record c {
  kind = input.kind;
  name = input.name;
  config = input.config;
  enabled = input.enabled;
  updated_at = now;
}

-- `UPDATE … RETURNING *` with `fetch_optional`
unfoldable pub update_channel :
    Uuid → Uuid → UpsertChannel → Instant → Db → Option NotificationChannel × Db
unfolding changed_channel
update_channel user_id id input now db =
    let rows = update_where (is_channel_of user_id id) (changed_channel input now) db.channels in
    (find (is_channel_of user_id id) rows, record db { channels = rows })

-- No table refers to the channels.
unfoldable pub delete_channel : Uuid → Uuid → Db → ℕ × Db
delete_channel user_id id db = (
  count_by (is_channel_of user_id id) db.channels,
  record db { channels = filter (λ c. not (is_channel_of user_id id c)) db.channels },
)
