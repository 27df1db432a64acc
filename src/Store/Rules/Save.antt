-- ===== src/Store/Rules/Save.antt =====
-- db/rules.rs: saving a rule, with its dependencies and its versions, in one transaction: either
-- all of its statements take effect or none. The other queries of the handlers.
pub mod Versions
use myccmonitor.Prelude.{
  ℕ, ◌/◌, String, Bool, true, false, not, ◌&&◌, ◌||◌, Option, none, some, List, [], ◌∷◌,
  if◌then◌else◌, ◌==◌, ltb, any, filter, find, map, take, count_by, update_where, str_eq, option_eq,
}
use myccmonitor.Prelude.Int.{ℤ}
use myccmonitor.Json.{Uuid, Instant, Json}
use myccmonitor.Error.{Error, row_not_found, Result, ok, err}
use myccmonitor.Store.Rows.{Rule, RuleVersion, Dependency}
use myccmonitor.Store.Tables.{Db}

abbrev pub versions_per_rule : ℕ
versions_per_rule = 5

-- The columns that a save writes.
pub record RuleColumns : Type 0 where
  pub name : String
  pub is_enabled : Bool
  pub condition : Json
  pub actions : Json
  pub cooldown_seconds : ℤ
  pub metadata : Option Json

abbrev pub is_rule_of : Uuid → Uuid → Rule → Bool
is_rule_of user_id id r = (r.id == id) && (r.user_id == user_id)

unfoldable pub with_columns : RuleColumns → Instant → Rule → Rule
with_columns c now r = record r {
  name = c.name;
  is_enabled = c.is_enabled;
  condition = c.condition;
  actions = c.actions;
  cooldown_seconds = c.cooldown_seconds;
  metadata = c.metadata;
  last_modified_at = now;
}

unfoldable pub new_rule : Uuid → RuleColumns → Instant → Uuid → Rule
new_rule user_id c now fresh = record {
  id = fresh;
  user_id = user_id;
  name = c.name;
  is_enabled = c.is_enabled;
  condition = c.condition;
  actions = c.actions;
  cooldown_seconds = c.cooldown_seconds;
  last_fired_at = none;
  last_outcome_state = none;
  metadata = c.metadata;
  created_at = now;
  last_modified_at = now;
}

-- `UPDATE … RETURNING *` with `fetch_one`: the row and the table, none where no row is the user's.
abbrev pub returned : Option Rule → List Rule → Option (Rule × List Rule)
returned none rows = none
returned (some r) rows = some (r, rows)

unfoldable pub write_rule :
    Uuid → Option Uuid → RuleColumns → Instant → Uuid → List Rule → Option (Rule × List Rule)
unfolding with_columns new_rule
write_rule user_id (some id) c now fresh rows =
    let rows' = update_where (is_rule_of user_id id) (with_columns c now) rows in
    returned (find (is_rule_of user_id id) rows') rows'
write_rule user_id none c now fresh rows =
    some (new_rule user_id c now fresh, new_rule user_id c now fresh ∷ rows)

abbrev pub same_dependency : Dependency → Dependency → Bool
same_dependency d e =
    (d.rule_id == e.rule_id) && (str_eq d.ref_kind e.ref_kind && (d.ref_id == e.ref_id))

-- `ON CONFLICT DO NOTHING`
unfoldable pub insert_dependency : Dependency → List Dependency → List Dependency
insert_dependency d rows = if any (same_dependency d) rows then rows else d ∷ rows

unfoldable pub insert_dependencies : Uuid → List (String × Uuid) → List Dependency → List Dependency
unfolding insert_dependency
insert_dependencies rule_id [] rows = rows
insert_dependencies rule_id ((kind, ref_id) ∷ rest) rows =
    insert_dependencies rule_id rest
      (insert_dependency (record { rule_id = rule_id; ref_kind = kind; ref_id = ref_id }) rows)

unfoldable pub refresh_dependencies :
    Uuid → List (String × Uuid) → List Dependency → List Dependency
unfolding insert_dependencies
refresh_dependencies rule_id deps rows =
    insert_dependencies rule_id deps (filter (λ d. not (d.rule_id == rule_id)) rows)

abbrev pub is_version : Uuid → String → RuleVersion → Bool
is_version rule_id version_id v = (v.rule_id == rule_id) && str_eq v.version_id version_id

-- `ON CONFLICT (rule_id, version_id) DO NOTHING`
unfoldable pub insert_version : RuleVersion → List RuleVersion → List RuleVersion
insert_version v rows = if any (is_version v.rule_id v.version_id) rows then rows else v ∷ rows

-- `ORDER BY saved_at DESC`
unfoldable pub insert_latest_first : RuleVersion → List RuleVersion → List RuleVersion
insert_latest_first v [] = v ∷ []
insert_latest_first v (x ∷ xs) =
    let rest = insert_latest_first v xs in
    if ltb v.saved_at x.saved_at then x ∷ rest else v ∷ x ∷ xs

unfoldable pub latest_first : List RuleVersion → List RuleVersion
unfolding insert_latest_first
latest_first [] = []
latest_first (v ∷ vs) = insert_latest_first v (latest_first vs)

abbrev pub has_version_id : List RuleVersion → String → Bool
has_version_id kept id = any (λ v. str_eq v.version_id id) kept

unfoldable pub prune_versions : Uuid → List RuleVersion → List RuleVersion
unfolding latest_first
prune_versions rule_id rows =
    let kept = take versions_per_rule (latest_first (filter (λ v. v.rule_id == rule_id) rows)) in
    filter (λ v. not (v.rule_id == rule_id) || has_version_id kept v.version_id) rows

module _ (encode_rule : Rule → Json) (version_name : ℕ → String) where
  -- After the row is written.
  unfoldable pub save_row :
      List (String × Uuid) → Option String → Instant → Rule → List Rule → Db → Db
  unfolding refresh_dependencies insert_version prune_versions
  save_row deps comment now row rows db = record db {
    rules = rows;
    dependencies = refresh_dependencies row.id deps db.dependencies;
    versions = prune_versions row.id (
        insert_version
          (record {
            rule_id = row.id;
            version_id = version_name (now / 1000000);
            rule = encode_rule row;
            comment = comment;
            saved_at = now;
          })
          db.versions);
  }

  abbrev pub saved :
      List (String × Uuid)
      → Option String
      → Instant
      → Db
      → Option (Rule × List Rule)
      → Result Rule × Db
  saved deps comment now db none = (err row_not_found, db)
  saved deps comment now db (some (row, rows)) = (ok row, save_row deps comment now row rows db)

  unfoldable pub save :
      Uuid
      → Option Uuid
      → RuleColumns
      → List (String × Uuid)
      → Option String
      → Instant
      → Uuid
      → Db
      → Result Rule × Db
  unfolding write_rule save_row
  save user_id id c deps comment now fresh db =
      saved deps comment now db (write_rule user_id id c now fresh db.rules)

-- With what `ON DELETE CASCADE` and `ON DELETE SET NULL` do of the rows that refer to it.
unfoldable pub delete_rule : Uuid → Uuid → Db → ℕ × Db
delete_rule user_id id db =
    if any (is_rule_of user_id id) db.rules
    then (
      count_by (is_rule_of user_id id) db.rules,
      record db {
        rules = filter (λ r. not (is_rule_of user_id id r)) db.rules;
        dependencies = filter (λ d. not (d.rule_id == id)) db.dependencies;
        versions = filter (λ v. not (v.rule_id == id)) db.versions;
        firings = filter (λ f. not (f.rule_id == id)) db.firings;
        alerts =
            update_where (λ a. option_eq a.rule_id id) (λ a. record a { rule_id = none }) db.alerts;
      },
    )
    else (0, db)

-- `JOIN rules r … WHERE … AND r.user_id = $3`
abbrev pub payload_of : Option RuleVersion → Option Json
payload_of none = none
payload_of (some v) = some v.rule

unfoldable pub find_version_payload : Uuid → Uuid → String → Db → Option Json
find_version_payload user_id rule_id version_id db =
    if any (is_rule_of user_id rule_id) db.rules
    then payload_of (find (is_version rule_id version_id) db.versions)
    else none

unfoldable pub list_versions : Uuid → Uuid → Db → List RuleVersion
unfolding latest_first
list_versions user_id rule_id db =
    if any (is_rule_of user_id rule_id) db.rules
    then latest_first (filter (λ v. v.rule_id == rule_id) db.versions)
    else []
