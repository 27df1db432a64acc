-- ===== src/Store/Confined/Lookups.antt =====
-- What the lookups of backend/src/db find for a user is the user's.
use myccmonitor.Prelude.{◌≡◌, sym, ◌∙◌, Option, none, some, arith, find, Option-cases, inl, inr}
use myccmonitor.Json.{Uuid}
use myccmonitor.Store.Rows.{Monitor, Rule, NotificationChannel}
use myccmonitor.Store.Tables.{Db}
use myccmonitor.Store.Ownership.{is_own, any-Within, any_of_find, find-is_own}
use myccmonitor.Store.Monitors.{is_owned, find_by_id_for_user}
use myccmonitor.Store.Rules.{find_rule}
use myccmonitor.Store.Channels.{find_channel}
use myccmonitor.Store.Confined.{
  monitor_key, monitor_owner, rule_key, rule_owner, channel_key, channel_owner, Confined,
  OwnsMonitor, OwnsRule, OwnsChannel,
}

module _ (u : Uuid) (before : Db) where
  -- What a lookup for the user finds is the user's.
  abbrev pub FoundMonitor : Option Monitor → Uuid → Type 0
  FoundMonitor none i = Unit
  FoundMonitor (some m) i = OwnsMonitor u before i

  abbrev pub FoundRule : Option Rule → Type 0
  FoundRule none = Unit
  FoundRule (some r) = OwnsRule u before r.id × (r.user_id ≡ u)

  abbrev pub FoundChannel : Option NotificationChannel → Type 0
  FoundChannel none = Unit
  FoundChannel (some c) = OwnsChannel u before c.id

  pub find_monitor-Found :
      (i : Uuid) (db : Db) → Confined u before db → FoundMonitor (find_by_id_for_user u i db) i
  unfolding find_by_id_for_user
  find_monitor-Found i db c = elim (Option-cases (find (is_owned u i) db.monitors)) [
    | inl e ↦ rw e tt
    | inr (m, e) ↦ rw e (
        sym (any-Within monitor_key monitor_owner u i before.monitors db.monitors c.monitors)
        ∙ any_of_find monitor_key monitor_owner u i db.monitors e)
  ]

  pub find_rule-Found : (i : Uuid) (db : Db) → Confined u before db → FoundRule (find_rule u i db)
  unfolding find_rule
  find_rule-Found i db c = elim (Option-cases (find (is_own rule_key rule_owner u i) db.rules)) [
    | inl e ↦ rw e tt
    | inr (r, e) ↦
        let own = find-is_own rule_key rule_owner u i db.rules e in
        let same : r.id ≡ i = ground arith in
        rw e (
          rw same (
              sym (any-Within rule_key rule_owner u i before.rules db.rules c.rules)
              ∙ any_of_find rule_key rule_owner u i db.rules e),
          ground arith,
        )
  ]

  pub find_channel-Found :
      (i : Uuid) (db : Db) → Confined u before db → FoundChannel (find_channel u i db)
  unfolding find_channel
  find_channel-Found i db c =
      elim (Option-cases (find (is_own channel_key channel_owner u i) db.channels)) [
        | inl e ↦ rw e tt
        | inr (r, e) ↦
            let own = find-is_own channel_key channel_owner u i db.channels e in
            let same : r.id ≡ i = ground arith in
            rw e (
              rw same (
                sym
                  (any-Within channel_key channel_owner u i before.channels db.channels c.channels)
                ∙ any_of_find channel_key channel_owner u i db.channels e))
      ]
