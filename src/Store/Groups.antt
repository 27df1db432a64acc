-- ===== src/Store/Groups.antt =====
-- db/monitor_groups.rs: groups and their manual members.
pub mod Saved
use myccmonitor.Prelude.{
  ℕ, Bool, not, ◌&&◌, Option, List, ◌∷◌, if◌then◌else◌, ◌==◌, any, filter, find, map, count_by,
}
use myccmonitor.Json.{Uuid}
use myccmonitor.Store.Rows.{MonitorGroup, GroupMember}
use myccmonitor.Store.Tables.{Db}

abbrev pub is_group_of : Uuid → Uuid → MonitorGroup → Bool
is_group_of user_id id g = (g.id == id) && (g.user_id == user_id)

unfoldable pub find_group : Uuid → Uuid → Db → Option MonitorGroup
find_group user_id id db = find (is_group_of user_id id) db.groups

-- `SELECT monitor_id FROM monitor_group_members WHERE group_id = $1`
unfoldable pub manual_members : Uuid → Db → List Uuid
manual_members group_id db =
    map (λ m. m.monitor_id) (filter (λ m. m.group_id == group_id) db.members)

abbrev pub is_member : Uuid → Uuid → GroupMember → Bool
is_member group_id monitor_id m = (m.group_id == group_id) && (m.monitor_id == monitor_id)

-- The `EXISTS … AND EXISTS …` query, and the insertion `ON CONFLICT … DO NOTHING`.
unfoldable pub may_add : Uuid → Uuid → Uuid → Db → Bool
may_add user_id group_id monitor_id db =
    any (is_group_of user_id group_id) db.groups
    && any (λ m. (m.id == monitor_id) && (m.user_id == user_id)) db.monitors

unfoldable pub insert_member : Uuid → Uuid → Db → Db
insert_member group_id monitor_id db = record db {
  members =
      if any (is_member group_id monitor_id) db.members
      then db.members
      else record { group_id = group_id; monitor_id = monitor_id } ∷ db.members;
}

unfoldable pub remove_member : Uuid → Uuid → Uuid → Db → ℕ × Db
remove_member user_id group_id monitor_id db =
    let owned = any (is_group_of user_id group_id) db.groups in
    (
      (if owned then count_by (is_member group_id monitor_id) db.members else 0),
      record db {
        members =
            if owned
            then filter (λ m. not (is_member group_id monitor_id m)) db.members
            else db.members;
      },
    )
