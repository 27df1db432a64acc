-- ===== src/Store/Groups/Saved.antt =====
-- db/monitor_groups.rs: the queries that create, change and delete a group. `encode_auto_rules` is
-- `serde_json::to_value` of the rules for automatic members.
use myccmonitor.Prelude.{
  ℕ, String, Bool, not, ◌&&◌, Option, none, some, ◌∷◌, ◌==◌, any, filter, find, count_by,
  update_where,
}
use myccmonitor.Json.{Uuid, Instant, Json}
use myccmonitor.Store.Rows.{MonitorGroup, GroupMember, AutoRules}
use myccmonitor.Store.Tables.{Db}
use myccmonitor.Store.Groups.{is_group_of}

pub record CreateGroup : Type 0 where
  pub name : String
  pub description : Option String
  pub auto_rules : Option AutoRules

pub record UpdateGroup : Type 0 where
  pub name : Option String
  pub description : Option String
  pub auto_rules : Option AutoRules

-- `COALESCE($n, column)`, for a column that may be null and for one that may not.
abbrev pub coalesce {ℓ} : {A : Type ℓ} → Option A → Option A → Option A
coalesce none column = column
coalesce (some a) column = some a

abbrev pub coalesce_value {ℓ} : {A : Type ℓ} → Option A → A → A
coalesce_value none column = column
coalesce_value (some a) column = a

-- The groups with the key go, and their members with them (`ON DELETE CASCADE`).
abbrev pub is_gone : Uuid → Uuid → Db → GroupMember → Bool
is_gone user_id id db m = (m.group_id == id) && any (is_group_of user_id id) db.groups

unfoldable pub delete_group : Uuid → Uuid → Db → ℕ × Db
delete_group user_id id db = (
  count_by (is_group_of user_id id) db.groups,
  record db {
    groups = filter (λ g. not (is_group_of user_id id g)) db.groups;
    members = filter (λ m. not (is_gone user_id id db m)) db.members;
  },
)

module _ (encode_auto_rules : AutoRules → Json) where
  unfoldable pub auto_rules_json : Option AutoRules → Option Json
  auto_rules_json none = none
  auto_rules_json (some r) = some (encode_auto_rules r)

  unfoldable pub new_group : Uuid → CreateGroup → Instant → Uuid → MonitorGroup
  unfolding auto_rules_json
  new_group user_id input now fresh = record {
    id = fresh;
    user_id = user_id;
    name = input.name;
    description = input.description;
    auto_rules = auto_rules_json input.auto_rules;
    created_at = now;
    updated_at = now;
  }

  unfoldable pub create_group : Uuid → CreateGroup → Instant → Uuid → Db → MonitorGroup × Db
  unfolding new_group
  create_group user_id input now fresh db = (
    new_group user_id input now fresh,
    record db { groups = new_group user_id input now fresh ∷ db.groups },
  )

  unfoldable pub changed_group : UpdateGroup → Instant → MonitorGroup → MonitorGroup
  unfolding auto_rules_json
  changed_group input now g = record g {
    name = coalesce_value input.name g.name;
    description = coalesce input.description g.description;
    auto_rules = coalesce (auto_rules_json input.auto_rules) g.auto_rules;
    updated_at = now;
  }

  -- `UPDATE … RETURNING *` with `fetch_optional`
  unfoldable pub update_group : Uuid → Uuid → UpdateGroup → Instant → Db → Option MonitorGroup × Db
  unfolding changed_group
  update_group user_id id input now db =
      let rows = update_where (is_group_of user_id id) (changed_group input now) db.groups in
      (find (is_group_of user_id id) rows, record db { groups = rows })
