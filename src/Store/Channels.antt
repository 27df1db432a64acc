-- ===== src/Store/Channels.antt =====
-- db/notification_channels.rs and db/alerts.rs: the queries of a dispatch.
pub mod Saved
use myccmonitor.Prelude.{String, ◌&&◌, Option, none, some, ◌∷◌, ◌==◌, find, update_where}
use myccmonitor.Prelude.Int.{pos, ◌+ℤ◌}
use myccmonitor.Json.{Uuid, Instant}
use myccmonitor.Store.Rows.{NotificationChannel}
use myccmonitor.Store.Tables.{Db, Alert}

unfoldable pub find_channel : Uuid → Uuid → Db → Option NotificationChannel
find_channel user_id id db = find (λ c. (c.id == id) && (c.user_id == user_id)) db.channels

unfoldable pub record_success : Uuid → Instant → Db → Db
record_success id now db = record db {
  channels =
      update_where (λ c. c.id == id)
        (λ c. record c {
          last_success_at = some now;
          failure_count = pos 0;
          last_failure_message = none;
        })
        db.channels;
}

unfoldable pub record_failure : Uuid → String → Instant → Db → Db
record_failure id msg now db = record db {
  channels =
      update_where (λ c. c.id == id)
        (λ c. record c {
          last_failure_at = some now;
          failure_count = c.failure_count +ℤ pos 1;
          last_failure_message = some msg;
        })
        db.channels;
}

unfoldable pub insert_alert : Alert → Db → Db
insert_alert a db = record db { alerts = a ∷ db.alerts }

-- `UPDATE alerts SET notified_at = now() WHERE id = $1`
unfoldable pub mark_notified : Uuid → Instant → Db → Db
mark_notified id now db = record db {
  alerts = update_where (λ a. a.id == id) (λ a. record a { notified_at = some now }) db.alerts;
}
