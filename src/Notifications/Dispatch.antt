-- ===== src/Notifications/Dispatch.antt =====
-- notifications/dispatch.rs: rendering, the channel, three attempts to send, and the alert that
-- records the outcome; with `render` of notifications/template.rs. An adapter is one external
-- call, which fails or delivers; `sleep` only lets other tasks run.
pub mod Outcome
pub mod Isolation
use Prim.Native.String.{◌++◌}
use myccmonitor.Prelude.{
  ℕ, zero, suc, ◌*◌, ◌-◌, ◌^◌, String, Bool, true, false, not, ◌&&◌, ◌||◌, Option, none, some, List,
  [], ◌∷◌, if◌then◌else◌, str_eq,
}
use myccmonitor.Json.{Uuid}
use myccmonitor.Error.{
  Error, channel_not_found, channel_disabled, unknown_kind, dispatch_failed, unavailable, Result,
  ok, err,
}
use myccmonitor.Task.{◌>>=◌, ◌>>◌, pure, throw, atomic, attempt}
use myccmonitor.World.{World, Async, tick, query, select}
use myccmonitor.Host.{Host, TemplateContext}
use myccmonitor.Store.Rows.{Monitor, Rule, NotificationChannel}
use myccmonitor.Store.Tables.{Db, Alert, Delivery}
use myccmonitor.Store.Monitors.{find_by_id_for_user}
use myccmonitor.Store.Channels.{
  find_channel, record_success, record_failure, insert_alert, mark_notified,
}

-- `.await.ok().flatten()`
unfoldable pub ok_flatten : Result (Option Monitor) → Option Monitor
ok_flatten (ok m) = m
ok_flatten (err e) = none

unfoldable pub trigger_monitor : Uuid → Option Uuid → Async (Option Monitor)
unfolding ok_flatten
trigger_monitor user_id none = pure none
trigger_monitor user_id (some id) = do
  r ← attempt (select (find_by_id_for_user user_id id))
  pure (ok_flatten r)

unfoldable pub default_subject : Rule → Option Monitor → String
default_subject rule none = "[" ++ (rule.name ++ "] alert")
default_subject rule (some m) = "[" ++ (rule.name ++ ("] " ++ m.display_name))

unfoldable pub monitor_text : Option Monitor → String
monitor_text none = "n/a"
monitor_text (some m) = m.display_name ++ (" (" ++ (m.kind ++ (") — " ++ m.current_state)))

unfoldable pub default_body : Rule → String → Option Monitor → String
unfolding monitor_text
default_body rule trigger_kind m =
    "Rule '"
    ++ (rule.name
        ++ ("' fired (trigger=" ++ (trigger_kind ++ ("). Monitor: " ++ (monitor_text m ++ ".")))))

unfoldable pub rendered_level : Option Monitor → String
rendered_level none = "info"
rendered_level (some m) =
    if str_eq m.current_state "critical"
    then "critical"
    else if str_eq m.current_state "warning"
    then "warning"
    else if str_eq m.current_state "ok"
    then "recovered"
    else "info"

-- `for_kind` of notifications/adapters.rs: whether there is an adapter.
unfoldable pub for_kind : String → Result (Unit {0})
for_kind kind =
    if str_eq kind "email"
      || (str_eq kind "slack" || (str_eq kind "discord" || str_eq kind "webhook"))
    then ok tt
    else err (unknown_kind kind)

-- `1u64 << (2 * (attempt - 1))` seconds before the attempts after the first.
unfoldable pub retry_delay : ℕ → ℕ
retry_delay attempts = 2 ^ (2 * (attempts - 1))

unfoldable pub sleep : ℕ → Async (Unit {0})
sleep seconds = atomic (λ w. (ok tt, tick w))

-- `adapter.send`
unfoldable pub send_message : NotificationChannel → String → String → Async (Unit {0})
send_message c subject body = query (λ now fresh db. (
  tt,
  record db {
    deliveries = record { channel_id = c.id; subject = subject; body = body } ∷ db.deliveries;
  },
))

unfoldable pub wait_before : ℕ → Async (Unit {0})
unfolding sleep retry_delay
wait_before zero = pure tt
wait_before (suc n) = sleep (retry_delay (suc n))

-- The loop `for attempt in 0..3`: `left` attempts to go, `made` made; the last error if none
-- succeeded.
unfoldable pub send_loop :
    ℕ → ℕ → NotificationChannel → String → String → Error → Async (Result (Unit {0}))
unfolding wait_before send_message
send_loop zero made c subject body last_err = pure (err last_err)
send_loop (suc left) made c subject body last_err = do
  wait_before made
  r ← attempt (send_message c subject body)
  elim r [ ok _ ↦ pure (ok tt) | err e ↦ send_loop left (suc made) c subject body e ]

abbrev pub id_of : Option Monitor → Option Uuid
id_of none = none
id_of (some m) = some m.id

-- What the alert of a dispatch has besides its outcome.
unfoldable pub alert_of :
    Uuid → Uuid → Rule → Option Monitor → NotificationChannel → String → String → Alert
alert_of id user_id rule m c subject trigger_kind = record {
  id = id;
  user_id = user_id;
  monitor_id = id_of m;
  rule_id = some rule.id;
  level = "error";
  message = none;
  channel_id = c.id;
  channel_kind = c.kind;
  subject = subject;
  trigger_kind = trigger_kind;
  delivered = false;
  notified_at = none;
}

unfoldable pub alert_insert : (Uuid → Alert) → Async Uuid
unfolding insert_alert
alert_insert a = query (λ now fresh db. (fresh, insert_alert (a fresh) db))

unfoldable pub str_trim_is_empty : Host → String → Bool
str_trim_is_empty h String.[] = true
str_trim_is_empty h (String.◌∷◌ c s) = h.is_whitespace c && str_trim_is_empty h s

-- `template::render`
unfoldable pub render : Host → String → TemplateContext → String → String
unfolding str_trim_is_empty
render h template context default =
    if str_trim_is_empty h template
    then default
    else elim (h.render_template template context) [ none ↦ default | some s ↦ s ]

module _ (h : Host) where
  unfoldable pub finish_dispatch :
      Uuid
      → Rule
      → Option Monitor
      → NotificationChannel
      → String
      → String
      → String
      → Result (Unit {0})
      → Async Uuid
  unfolding alert_of alert_insert rendered_level
  finish_dispatch user_id rule m c subject body trigger_kind (ok _) = do
    attempt (query (λ now fresh db. (tt, record_success c.id now db)))
    alert_id ← alert_insert (λ id. record (alert_of id user_id rule m c subject trigger_kind) {
      level = rendered_level m;
      message = some body;
      delivered = true;
    })
    attempt (query (λ now fresh db. (tt, mark_notified alert_id now db)))
    pure alert_id
  finish_dispatch user_id rule m c subject body trigger_kind (err e) = do
    attempt (query (λ now fresh db. (tt, record_failure c.id (h.show_error e) now db)))
    alert_id ← alert_insert (λ id. record (alert_of id user_id rule m c subject trigger_kind) {
      message = some ("delivery failed after 3 attempts: " ++ h.show_error e);
    })
    throw (dispatch_failed e alert_id)

  unfoldable pub send_to :
      Uuid
      → Rule
      → Option Monitor
      → String
      → String
      → String
      → Uuid
      → Option NotificationChannel
      → Async Uuid
  unfolding send_loop finish_dispatch
  send_to user_id rule m subject body trigger_kind channel_id none =
      throw (channel_not_found channel_id)
  send_to user_id rule m subject body trigger_kind channel_id (some c) =
      if not c.enabled then throw (channel_disabled c.name) else elim (for_kind c.kind) [
        | err e ↦ throw e
        | ok _ ↦ (do
          sent ← send_loop 3 0 c subject body unavailable
          finish_dispatch user_id rule m c subject body trigger_kind sent)
      ]

  unfoldable pub or_empty : Option String → String
  or_empty none = ""
  or_empty (some s) = s

  unfoldable pub dispatch :
      Uuid → Rule → Uuid → String → Option Uuid → String → Option String → Async Uuid
  unfolding trigger_monitor send_to render default_subject default_body or_empty
  dispatch channel_id rule user_id trigger_kind trigger_ref raw_message raw_subject = do
    m ← trigger_monitor user_id trigger_ref
    let context : TemplateContext = record {
      rule_id = rule.id;
      rule_name = rule.name;
      trigger_kind = trigger_kind;
      trigger_ref = trigger_ref;
      monitor = m;
    }
    let subject = render h (or_empty raw_subject) context (default_subject rule m)
    let body = render h raw_message context (default_body rule trigger_kind m)
    channel ← select (find_channel user_id channel_id)
    send_to user_id rule m subject body trigger_kind channel_id channel
