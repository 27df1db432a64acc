-- ===== src/Store/Rules.antt =====
-- db/rules.rs and db/rule_firings.rs, and the inverse lookup of rules/exec.rs.
pub mod Save
use myccmonitor.Prelude.{
  String, Bool, true, false, ◌&&◌, ◌||◌, Option, none, some, List, ◌∷◌, if◌then◌else◌, ◌==◌, any,
  filter, find, map, update_where, str_eq,
}
use myccmonitor.Json.{Uuid, Instant}
use myccmonitor.Store.Rows.{Rule}
use myccmonitor.Store.Tables.{Db, Summary}

unfoldable pub find_rule : Uuid → Uuid → Db → Option Rule
find_rule user_id id db = find (λ r. (r.id == id) && (r.user_id == user_id)) db.rules

-- The rule's firing time is set only where `fired` is.
unfoldable pub update_outcome : Uuid → String → Bool → Instant → Db → Db
update_outcome rule_id outcome fired now db = record db {
  rules =
      update_where (λ r. r.id == rule_id)
        (λ r.
          if fired
          then record r { last_fired_at = some now; last_outcome_state = some outcome }
          else record r { last_outcome_state = some outcome })
        db.rules;
}

-- `JOIN rules r … WHERE r.user_id = $1 AND r.is_enabled = TRUE`
abbrev pub has_enabled_rule : Uuid → Db → Uuid → Bool
has_enabled_rule user_id db rule_id =
    any (λ r. (r.id == rule_id) && ((r.user_id == user_id) && r.is_enabled)) db.rules

-- The repetitions that `SELECT DISTINCT` drops are dropped by the caller's `sort` and `dedup`.
unfoldable pub direct_rule_ids : Uuid → Uuid → Db → List Uuid
direct_rule_ids user_id monitor_id db =
    map (λ d. d.rule_id)
      (filter
        (λ d.
          str_eq d.ref_kind "monitor"
          && ((d.ref_id == monitor_id) && has_enabled_rule user_id db d.rule_id))
        db.dependencies)

abbrev is_some {ℓ} : {A : Type ℓ} → Option A → Bool
is_some none = false
is_some (some a) = true

-- A group of the user that lists the monitor, or that has automatic rules.
abbrev pub covers : Uuid → Uuid → Db → Uuid → Bool
covers user_id monitor_id db group_id =
    any
      (λ g.
        (g.id == group_id)
        && ((g.user_id == user_id)
            && (any (λ m. (m.group_id == g.id) && (m.monitor_id == monitor_id)) db.members
                || is_some g.auto_rules)))
      db.groups

unfoldable pub group_rule_ids : Uuid → Uuid → Db → List Uuid
group_rule_ids user_id monitor_id db =
    map (λ d. d.rule_id)
      (filter
        (λ d.
          str_eq d.ref_kind "group"
          && (covers user_id monitor_id db d.ref_id && has_enabled_rule user_id db d.rule_id))
        db.dependencies)

unfoldable pub insert_firing :
    Uuid
    → Uuid
    → String
    → Option Uuid
    → String
    → Option (List Summary)
    → Option String
    → Instant
    → Uuid
    → Db
    → Db
insert_firing rule_id user_id kind ref outcome executed message now fresh db = record db {
  firings =
      record {
        id = fresh;
        rule_id = rule_id;
        user_id = user_id;
        fired_at = now;
        trigger_kind = kind;
        trigger_ref = ref;
        outcome = outcome;
        actions_executed = executed;
        error_message = message;
      }
      ∷ db.firings;
}
