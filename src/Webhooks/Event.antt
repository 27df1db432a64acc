-- ===== src/Webhooks/Event.antt =====
-- webhooks/event.rs: the body of a webhook, where it is routed to, and its deduplication key.
pub mod Injective
use Prim.Native.String.{◌++◌}
use myccmonitor.Prelude.{String, Option, none, some}

pub record Application : Type 0 where
  pub id : String
  pub owner_id : Option String

pub record Addon : Type 0 where
  pub id : String
  pub owner_id : Option String

pub record Deployment : Type 0 where
  pub id : Option String

pub record WebhookEnvelope : Type 0 where
  pub event : String
  pub date : Option String
  pub application : Option Application
  pub addon : Option Addon
  pub deployment : Option Deployment

pub record Routing : Type 0 where
  pub owner_id : String
  pub resource_id : String

-- `owner_id.clone()?`
unfoldable pub route_to : Option String → String → Option Routing
route_to none id = none
route_to (some owner) id = some (record { owner_id = owner; resource_id = id })

unfoldable pub addon_routing : Option Addon → Option Routing
unfolding route_to
addon_routing none = none
addon_routing (some addon) = route_to addon.owner_id addon.id

unfoldable pub routing_of : Option Application → Option Addon → Option Routing
unfolding route_to addon_routing
routing_of (some app) addon = route_to app.owner_id app.id
routing_of none addon = addon_routing addon

unfoldable pub routing : WebhookEnvelope → Option Routing
unfolding routing_of
routing e = routing_of e.application e.addon

unfoldable pub text_or_empty : Option String → String
text_or_empty none = ""
text_or_empty (some s) = s

unfoldable pub addon_id : Option Addon → String
addon_id none = ""
addon_id (some addon) = addon.id

unfoldable pub key_resource : Option Application → Option Addon → String
unfolding addon_id
key_resource (some app) addon = app.id
key_resource none addon = addon_id addon

unfoldable pub key_deployment : Option Deployment → String
unfolding text_or_empty
key_deployment none = ""
key_deployment (some d) = text_or_empty d.id

-- `format!("{}|{}|{}|{}", …)`
unfoldable pub join_key : String → String → String → String → String
join_key event resource deployment date =
    event ++ String.◌∷◌ "|" (resource ++ String.◌∷◌ "|" (deployment ++ String.◌∷◌ "|" date))

unfoldable pub dedup_key : WebhookEnvelope → String
unfolding key_resource key_deployment text_or_empty join_key
dedup_key e =
    join_key e.event (key_resource e.application e.addon) (key_deployment e.deployment)
      (text_or_empty e.date)
