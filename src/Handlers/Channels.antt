-- ===== src/Handlers/Channels.antt =====
-- handlers/channels.rs: the requests on notification channels, with `validate_config` of
-- notifications/adapters.rs.
pub mod Accepted
use myccmonitor.Prelude.{
  ℕ, String, Bool, true, false, not, ◌&&◌, ◌||◌, Option, none, some, List, [], ◌∷◌, if◌then◌else◌,
  ◌==◌, str_eq,
}
use myccmonitor.Json.{Uuid, Json, Items, Members}
use myccmonitor.Error.{
  Error, empty_name, recipients_missing, url_missing, unknown_kind, not_found, Result, ok, err,
}
use myccmonitor.Task.{◌>>=◌, ◌>>◌, pure, throw}
use myccmonitor.World.{Async, query, select}
use myccmonitor.Host.{Host}
use myccmonitor.Store.Rows.{NotificationChannel}
use myccmonitor.Store.Channels.{find_channel}
use myccmonitor.Store.Channels.Saved.{UpsertChannel, create_channel, update_channel, delete_channel}
use myccmonitor.Handlers.Rules.{is_empty, trim, of_result, or_fail}

-- `serde_json::Value::get`
unfoldable pub find_member : String → Members → Option Json
find_member key Members.end = none
find_member key (Members.member k v rest) =
    let found = find_member key rest in if str_eq k key then some v else found

unfoldable pub get : String → Json → Option Json
unfolding find_member
get key (Json.object members) = find_member key members
get key j = none

-- `config.get("to").and_then(|v| v.as_array())`, and whether it is empty or missing.
unfoldable pub lacks_items : Option Json → Bool
lacks_items (some (Json.array (Items.cons j js))) = false
lacks_items v = true

-- `.and_then(|v| v.as_str()).filter(|s| !s.is_empty()).is_none()`
unfoldable pub lacks_text : Option Json → Bool
lacks_text (some (Json.string s)) = is_empty s
lacks_text v = true

unfoldable pub validate_config : String → Json → Result (Unit {0})
unfolding get lacks_items lacks_text
validate_config kind config =
    if str_eq kind "email"
    then if lacks_items (get "to" config) then err recipients_missing else ok tt
    else if str_eq kind "slack" || str_eq kind "discord"
    then if lacks_text (get "webhook_url" config) then err (url_missing kind) else ok tt
    else if str_eq kind "webhook"
    then if lacks_text (get "url" config) then err (url_missing kind) else ok tt
    else err (unknown_kind kind)

module _ (h : Host) where
  unfoldable pub validate : UpsertChannel → Result (Unit {0})
  unfolding validate_config trim
  validate input =
      if is_empty (trim h input.name)
      then err empty_name
      else validate_config input.kind input.config

  unfoldable pub create : Uuid → UpsertChannel → Async NotificationChannel
  unfolding validate of_result create_channel
  create user_id input = do
    of_result (validate input)
    query (λ now fresh db. create_channel user_id input now fresh db)

  unfoldable pub update : Uuid → Uuid → UpsertChannel → Async NotificationChannel
  unfolding validate of_result update_channel or_fail
  update user_id id input = do
    of_result (validate input)
    found ← query (λ now fresh db. update_channel user_id id input now db)
    or_fail (not_found id) found

unfoldable pub read : Uuid → Uuid → Async NotificationChannel
unfolding find_channel or_fail
read user_id id = do found ← select (find_channel user_id id); or_fail (not_found id) found

unfoldable pub delete : Uuid → Uuid → Async (Unit {0})
unfolding delete_channel
delete user_id id = do
  n ← query (λ now fresh db. delete_channel user_id id db)
  if n == 0 then throw (not_found id) else pure tt
