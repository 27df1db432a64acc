-- ===== src/Store/Confined.antt =====
-- What running the rules of one user may change of the database: that user's rows, and nothing of
-- the tables that rules only read.
pub mod Writes
pub mod Lookups
use myccmonitor.Prelude.{
  ℕ, ◌≡◌, refl, sym, ◌∙◌, String, Bool, true, not, Option, none, some, List, [], ◌∷◌, arith,
  if◌then◌else◌, ◌==◌, ==_refl, any, filter, find, update_where, Bool-cases, Option-cases, inl, inr,
}
use myccmonitor.Json.{Uuid, Instant}
use myccmonitor.Store.Rows.{Monitor, HistoryRow, Rule, NotificationChannel, DedupKey}
use myccmonitor.Store.Tables.{
  Db, RuleFiring, Alert, EscalationMessage, Summary, WsFrame, BroadcastPayload, Delivery,
}
use myccmonitor.Store.Ownership.{
  is_own, Within, IsKeyed, Within-refl, any-Within, update-Within, any_of_find, find-is_own,
}
use myccmonitor.Store.Monitors.{
  is_owned, find_by_id_for_user, changes, with_state, set_state_if_changed, set_acknowledged,
  same_change, insert_history,
}
use myccmonitor.Store.Rules.{find_rule, update_outcome, insert_firing}
use myccmonitor.Store.Channels.{
  find_channel, record_success, record_failure, insert_alert, mark_notified,
}
use myccmonitor.Rules.Actions.{push_broadcast, push_escalation}

abbrev pub monitor_key : Monitor → Uuid
monitor_key m = m.id

abbrev pub monitor_owner : Monitor → Uuid
monitor_owner m = m.user_id

abbrev pub rule_key : Rule → Uuid
rule_key r = r.id

abbrev pub rule_owner : Rule → Uuid
rule_owner r = r.user_id

abbrev pub channel_key : NotificationChannel → Uuid
channel_key c = c.id

abbrev pub channel_owner : NotificationChannel → Uuid
channel_owner c = c.user_id

-- The history of a monitor that the user does not own.
abbrev pub is_foreign : Uuid → Db → HistoryRow → Bool
is_foreign u db r = not (any (is_own monitor_key monitor_owner u r.monitor_id) db.monitors)

-- The alerts of other users, but for the time of their delivery: that is written by the alert's
-- freshly drawn id, which nothing here keeps apart from the others.
abbrev pub foreign_alerts : Uuid → List Alert → List Alert
foreign_alerts u [] = []
foreign_alerts u (a ∷ rest) =
    let others = foreign_alerts u rest in
    if a.user_id == u then others else record a { notified_at = none } ∷ others

-- `db` against `before`.
pub record Confined (u : Uuid) (before db : Db) : Type 0 where
  pub monitors : Within monitor_key monitor_owner u before.monitors db.monitors
  pub rules : Within rule_key rule_owner u before.rules db.rules
  pub channels : Within channel_key channel_owner u before.channels db.channels
  pub history :
      filter (is_foreign u before) db.history ≡ filter (is_foreign u before) before.history
  pub firings :
      filter (λ f. not (f.user_id == u)) db.firings
      ≡ filter (λ f. not (f.user_id == u)) before.firings
  pub alerts : foreign_alerts u db.alerts ≡ foreign_alerts u before.alerts
  pub escalations :
      filter (λ e. not (e.user_id == u)) db.escalations
      ≡ filter (λ e. not (e.user_id == u)) before.escalations
  pub readings : db.readings ≡ before.readings
  pub groups : db.groups ≡ before.groups
  pub members : db.members ≡ before.members
  pub dependencies : db.dependencies ≡ before.dependencies

-- Keys are unique in the tables that rules write by key.
pub record HasKeys (u : Uuid) (db : Db) : Type 0 where
  pub monitors : IsKeyed monitor_key monitor_owner u db.monitors
  pub rules : IsKeyed rule_key rule_owner u db.rules
  pub channels : IsKeyed channel_key channel_owner u db.channels

pub Confined-refl : (u : Uuid) (db : Db) → Confined u db db
Confined-refl u db = record {
  monitors = Within-refl monitor_key monitor_owner u db.monitors;
  rules = Within-refl rule_key rule_owner u db.rules;
  channels = Within-refl channel_key channel_owner u db.channels;
  history = refl;
  firings = refl;
  alerts = refl;
  escalations = refl;
  readings = refl;
  groups = refl;
  members = refl;
  dependencies = refl;
}

pub foreign_alerts-notified :
    (u i : Uuid) (now : Instant) (rows : List Alert)
    → foreign_alerts u
        (update_where (λ a. a.id == i) (λ a. record a { notified_at = some now }) rows)
      ≡ foreign_alerts u rows
foreign_alerts-notified u i now [] = refl
foreign_alerts-notified u i now (a ∷ rows) = elim (Bool-cases (a.id == i)) [
  | inl e ↦ rw e (rw (foreign_alerts-notified u i now rows))
  | inr e ↦ rw e (rw (foreign_alerts-notified u i now rows))
]

module _ (u : Uuid) (before : Db) {db : Db} (c : Confined u before db) where
  pub with_monitors :
      {x : List Monitor}
      → Within monitor_key monitor_owner u before.monitors x
      → Confined u before (record db { monitors = x })
  with_monitors h = record {
    monitors = h;
    rules = c.rules;
    channels = c.channels;
    history = c.history;
    firings = c.firings;
    alerts = c.alerts;
    escalations = c.escalations;
    readings = c.readings;
    groups = c.groups;
    members = c.members;
    dependencies = c.dependencies;
  }

  pub with_rules :
      {x : List Rule}
      → Within rule_key rule_owner u before.rules x
      → Confined u before (record db { rules = x })
  with_rules h = record {
    monitors = c.monitors;
    rules = h;
    channels = c.channels;
    history = c.history;
    firings = c.firings;
    alerts = c.alerts;
    escalations = c.escalations;
    readings = c.readings;
    groups = c.groups;
    members = c.members;
    dependencies = c.dependencies;
  }

  pub with_channels :
      {x : List NotificationChannel}
      → Within channel_key channel_owner u before.channels x
      → Confined u before (record db { channels = x })
  with_channels h = record {
    monitors = c.monitors;
    rules = c.rules;
    channels = h;
    history = c.history;
    firings = c.firings;
    alerts = c.alerts;
    escalations = c.escalations;
    readings = c.readings;
    groups = c.groups;
    members = c.members;
    dependencies = c.dependencies;
  }

  pub with_history :
      {x : List HistoryRow}
      → filter (is_foreign u before) x ≡ filter (is_foreign u before) before.history
      → Confined u before (record db { history = x })
  with_history h = record {
    monitors = c.monitors;
    rules = c.rules;
    channels = c.channels;
    history = h;
    firings = c.firings;
    alerts = c.alerts;
    escalations = c.escalations;
    readings = c.readings;
    groups = c.groups;
    members = c.members;
    dependencies = c.dependencies;
  }

  pub with_firings :
      {x : List RuleFiring}
      → filter (λ f. not (f.user_id == u)) x ≡ filter (λ f. not (f.user_id == u)) before.firings
      → Confined u before (record db { firings = x })
  with_firings h = record {
    monitors = c.monitors;
    rules = c.rules;
    channels = c.channels;
    history = c.history;
    firings = h;
    alerts = c.alerts;
    escalations = c.escalations;
    readings = c.readings;
    groups = c.groups;
    members = c.members;
    dependencies = c.dependencies;
  }

  pub with_alerts :
      {x : List Alert}
      → foreign_alerts u x ≡ foreign_alerts u before.alerts
      → Confined u before (record db { alerts = x })
  with_alerts h = record {
    monitors = c.monitors;
    rules = c.rules;
    channels = c.channels;
    history = c.history;
    firings = c.firings;
    alerts = h;
    escalations = c.escalations;
    readings = c.readings;
    groups = c.groups;
    members = c.members;
    dependencies = c.dependencies;
  }

  pub with_escalations :
      {x : List EscalationMessage}
      → filter (λ e. not (e.user_id == u)) x ≡ filter (λ e. not (e.user_id == u)) before.escalations
      → Confined u before (record db { escalations = x })
  with_escalations h = record {
    monitors = c.monitors;
    rules = c.rules;
    channels = c.channels;
    history = c.history;
    firings = c.firings;
    alerts = c.alerts;
    escalations = h;
    readings = c.readings;
    groups = c.groups;
    members = c.members;
    dependencies = c.dependencies;
  }

  pub with_broadcasts :
      (x : List BroadcastPayload) → Confined u before (record db { broadcasts = x })
  with_broadcasts x = record {
    monitors = c.monitors;
    rules = c.rules;
    channels = c.channels;
    history = c.history;
    firings = c.firings;
    alerts = c.alerts;
    escalations = c.escalations;
    readings = c.readings;
    groups = c.groups;
    members = c.members;
    dependencies = c.dependencies;
  }

  pub with_dedup : (x : List DedupKey) → Confined u before (record db { dedup = x })
  with_dedup x = record {
    monitors = c.monitors;
    rules = c.rules;
    channels = c.channels;
    history = c.history;
    firings = c.firings;
    alerts = c.alerts;
    escalations = c.escalations;
    readings = c.readings;
    groups = c.groups;
    members = c.members;
    dependencies = c.dependencies;
  }

  pub with_deliveries : (x : List Delivery) → Confined u before (record db { deliveries = x })
  with_deliveries x = record {
    monitors = c.monitors;
    rules = c.rules;
    channels = c.channels;
    history = c.history;
    firings = c.firings;
    alerts = c.alerts;
    escalations = c.escalations;
    readings = c.readings;
    groups = c.groups;
    members = c.members;
    dependencies = c.dependencies;
  }

module _ (u : Uuid) (before : Db) where
  -- A monitor, a rule and a channel that the user owns.
  abbrev pub OwnsMonitor : Uuid → Type 0
  OwnsMonitor i = any (is_own monitor_key monitor_owner u i) before.monitors ≡ true

  abbrev pub OwnsRule : Uuid → Type 0
  OwnsRule i = any (is_own rule_key rule_owner u i) before.rules ≡ true

  abbrev pub OwnsChannel : Uuid → Type 0
  OwnsChannel i = any (is_own channel_key channel_owner u i) before.channels ≡ true
