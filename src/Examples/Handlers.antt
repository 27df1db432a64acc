-- ===== src/Examples/Handlers.antt =====
-- Requests on channels and groups: handlers/channels.rs and handlers/groups.rs.
use myccmonitor.Prelude.{refl, true, none, some, [], ◌∷◌, inl, inr}
use myccmonitor.Json.{Json, Members}
use myccmonitor.Task.{run}
use myccmonitor.World.{World}
use myccmonitor.Notifications.Dispatch.{for_kind}
use myccmonitor.Store.Rows.{NotificationChannel}
use myccmonitor.Store.Channels.Saved.{UpsertChannel}
use myccmonitor.Store.Groups.Saved.{CreateGroup, UpdateGroup}
use myccmonitor.Handlers.Rules.{trim}
use myccmonitor.Handlers.Channels
use myccmonitor.Handlers.Channels.{get}
use myccmonitor.Handlers.Channels.Accepted.{AreAccepted, requests-AreAccepted}
use myccmonitor.Handlers.Groups
use myccmonitor.Handlers.Groups.Owned.{AreOwned, requests-AreOwned}
use myccmonitor.Examples.Fixture.{host, channel}
use myccmonitor.Examples.Rules.{start}

abbrev slack_config : Json
slack_config =
    Json.object
      (Members.member "webhook_url" (Json.string "https://hooks.example.org/1") Members.end)

abbrev slack_channel : NotificationChannel
slack_channel = record channel { kind = "slack"; config = slack_config }

abbrev slack_input : UpsertChannel
slack_input = record { kind = "slack"; name = "on call"; config = slack_config; enabled = true }

abbrev channels_start : World
channels_start = record start { db = record start.db { channels = slack_channel ∷ [] } }

slack_accepted : AreAccepted host channels_start.db
unfolding trim for_kind get
slack_accepted = ((refl, refl, inr (inl (refl, ("https://hooks.example.org/1", refl, refl)))), tt)

requests-AreAccepted_example :
    AreAccepted host (run (Channels.create host 100 slack_input) channels_start).1.db
    × AreAccepted host (run (Channels.update host 100 9 slack_input) channels_start).1.db
    × AreAccepted host (run (Channels.read 100 9) channels_start).1.db
    × AreAccepted host (run (Channels.delete 100 9) channels_start).1.db
requests-AreAccepted_example =
    requests-AreAccepted host 100 9 slack_input channels_start slack_accepted

abbrev web_input : CreateGroup
web_input = record { name = "front"; description = none; auto_rules = none }

abbrev web_changes : UpdateGroup
web_changes = record { name = some "front end"; description = none; auto_rules = none }

abbrev groups_start : World
groups_start = record start {
  db = record start.db {
    groups =
        record {
          id = 5;
          user_id = 100;
          name = "web";
          description = none;
          auto_rules = none;
          created_at = 0;
          updated_at = 0;
        }
        ∷ [];
    members = record { group_id = 5; monitor_id = 1 } ∷ [];
  };
}

requests-AreOwned_example :
    AreOwned (run (Groups.create (λ r. Json.null) host 100 web_input) groups_start).1.db
    × AreOwned (run (Groups.update (λ r. Json.null) host 100 5 web_changes) groups_start).1.db
    × AreOwned (run (Groups.delete 100 5) groups_start).1.db
    × AreOwned (run (Groups.add_member 100 5 1) groups_start).1.db
    × AreOwned (run (Groups.drop_member 100 5 1) groups_start).1.db
requests-AreOwned_example =
    requests-AreOwned (λ r. Json.null) host 100 5 1 web_input web_changes groups_start
      ((100, refl, refl), tt)
