-- ===== src/Handlers/Groups.antt =====
-- handlers/groups.rs: the requests on groups and on their members.
pub mod Owned
use myccmonitor.Prelude.{
  ℕ, String, Bool, true, false, not, Option, none, some, List, if◌then◌else◌, ◌==◌,
}
use myccmonitor.Json.{Uuid, Json}
use myccmonitor.Error.{Error, empty_name, not_found, forbidden}
use myccmonitor.Task.{◌>>=◌, ◌>>◌, pure, throw}
use myccmonitor.World.{Async, query, select}
use myccmonitor.Host.{Host}
use myccmonitor.Store.Rows.{Monitor, MonitorGroup, AutoRules}
use myccmonitor.Store.Monitors.{list_for_user}
use myccmonitor.Store.Groups.{find_group, manual_members, may_add, insert_member, remove_member}
use myccmonitor.Store.Groups.Saved.{
  CreateGroup, UpdateGroup, create_group, update_group, delete_group,
}
use myccmonitor.Groups.Rollup.{GroupView}
use myccmonitor.Rules.Fetch.{compute_view}
use myccmonitor.Handlers.Rules.{is_empty, trim, or_fail}

-- db/monitor_groups.rs, `add_member`
unfoldable pub insert_allowed : Uuid → Uuid → Bool → Async Bool
unfolding insert_member
insert_allowed group_id monitor_id allowed =
    if not allowed
    then pure false
    else query (λ now fresh db. (true, insert_member group_id monitor_id db))

unfoldable pub add_member_checked : Uuid → Uuid → Uuid → Async Bool
unfolding may_add insert_allowed
add_member_checked user_id group_id monitor_id = do
  allowed ← select (may_add user_id group_id monitor_id)
  insert_allowed group_id monitor_id allowed

unfoldable pub add_member : Uuid → Uuid → Uuid → Async (Unit {0})
unfolding add_member_checked
add_member user_id group_id monitor_id = do
  added ← add_member_checked user_id group_id monitor_id
  if not added then throw forbidden else pure tt

unfoldable pub drop_member : Uuid → Uuid → Uuid → Async (Unit {0})
unfolding remove_member
drop_member user_id group_id monitor_id = do
  query (λ now fresh db. remove_member user_id group_id monitor_id db)
  pure tt

unfoldable pub delete : Uuid → Uuid → Async (Unit {0})
unfolding delete_group
delete user_id id = do
  n ← query (λ now fresh db. delete_group user_id id db)
  if n == 0 then throw (not_found id) else pure tt

module _ (h : Host) where
  -- `all_user_monitors`, and the view.
  unfoldable pub view : Uuid → MonitorGroup → Async GroupView
  unfolding list_for_user
  view user_id group = do ms ← select (list_for_user user_id); compute_view h user_id group ms

  unfoldable pub read : Uuid → Uuid → Async GroupView
  unfolding find_group or_fail view
  read user_id id = do
    found ← select (find_group user_id id)
    group ← or_fail (not_found id) found
    view user_id group

module _ (encode_auto_rules : AutoRules → Json) (h : Host) where
  unfoldable pub create : Uuid → CreateGroup → Async GroupView
  unfolding create_group view trim
  create user_id input = if is_empty (trim h input.name) then throw empty_name else (do
    group ← query (λ now fresh db. create_group encode_auto_rules user_id input now fresh db)
    view h user_id group)

  unfoldable pub update : Uuid → Uuid → UpdateGroup → Async GroupView
  unfolding update_group or_fail view
  update user_id id input = do
    found ← query (λ now fresh db. update_group encode_auto_rules user_id id input now db)
    group ← or_fail (not_found id) found
    view h user_id group
