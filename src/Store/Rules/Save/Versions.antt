-- ===== src/Store/Rules/Save/Versions.antt =====
-- db/rules.rs, `prune_versions`: how many versions a save leaves of a rule.
use myccmonitor.Prelude.{
  ℕ, ◌≤◌, ◌≡◌, refl, String, Bool, false, not, ◌&&◌, Option, List, [], ◌∷◌, arith, ◌==◌, ==_refl,
  ◌∙◌, subst, sym, ◌/◌, str_eq_iff, Option-cases, any, filter, count_by, take, length-take-le,
  str_eq, Bool-cases, inl, inr,
}
use myccmonitor.Json.{Uuid, Instant, Json}
use myccmonitor.Error.{Result, ok, err}
use myccmonitor.Store.Rows.{Rule, RuleVersion}
use myccmonitor.Store.Tables.{Db}
use myccmonitor.Store.Retention.{prune_bound, others_kept, str_eq_sym}
use myccmonitor.Store.Rules.Save.{
  RuleColumns, is_version, insert_version, latest_first, prune_versions, save_row, save,
  has_version_id, write_rule,
}

-- The primary key of the table: one row for a rule and the name of a version.
abbrev pub HasVersionKeys : List RuleVersion → Type 0
HasVersionKeys rows =
    (rule_id : Uuid) (name : String)
    → count_by (λ v. (v.rule_id == rule_id) && str_eq name v.version_id) rows ≤ 1

absent-count :
    (rule_id : Uuid) (name : String) (rows : List RuleVersion)
    → any (is_version rule_id name) rows ≡ false
    → count_by (λ v. (v.rule_id == rule_id) && str_eq name v.version_id) rows ≡ 0
absent-count rule_id name [] e = refl
absent-count rule_id name (v ∷ rows) e =
    ground (arith, absent-count rule_id name rows, str_eq_sym name v.version_id, e)

cons-HasVersionKeys :
    (v : RuleVersion) (rows : List RuleVersion)
    → any (is_version v.rule_id v.version_id) rows ≡ false
    → HasVersionKeys rows
    → HasVersionKeys (v ∷ rows)
cons-HasVersionKeys v rows absent keys rule_id name =
    elim (Bool-cases ((v.rule_id == rule_id) && str_eq name v.version_id)) [
      | inr n ↦ rw n (keys rule_id name)
      | inl y ↦
          let rule : rule_id ≡ v.rule_id = ground arith in
          let same : name ≡ v.version_id = (str_eq_iff name v.version_id).0 (ground arith) in
          let of_rule : any (is_version rule_id v.version_id) rows ≡ false =
            subst (λ i. any (is_version i v.version_id) rows ≡ false) (sym rule) absent in
          let of_name : any (is_version rule_id name) rows ≡ false =
            subst (λ s. any (is_version rule_id s) rows ≡ false) (sym same) of_rule in
          rw y (omega (arith, absent-count rule_id name rows of_name))
    ]

insert_version-HasVersionKeys :
    (v : RuleVersion) (rows : List RuleVersion)
    → HasVersionKeys rows
    → HasVersionKeys (insert_version v rows)
unfolding insert_version
insert_version-HasVersionKeys v rows keys =
    elim (Bool-cases (any (is_version v.rule_id v.version_id) rows)) [
      | inl y ↦ rw y keys
      | inr n ↦ rw n (cons-HasVersionKeys v rows n keys)
    ]

-- At most five versions of the rule, and those of all others as they were.
abbrev pub Pruned : Uuid → List RuleVersion → List RuleVersion → Type 0
Pruned rule_id before after =
    (count_by (λ v. v.rule_id == rule_id) after ≤ 5)
    × (filter (λ v. not (v.rule_id == rule_id)) after
        ≡ filter (λ v. not (v.rule_id == rule_id)) before)

prune_versions-Pruned :
    (rule_id : Uuid) (rows : List RuleVersion)
    → HasVersionKeys rows
    → Pruned rule_id rows (prune_versions rule_id rows)
unfolding prune_versions
prune_versions-Pruned rule_id rows keys =
    let of_rule : RuleVersion → Bool = λ v. v.rule_id == rule_id in
    let kept = take 5 (latest_first (filter of_rule rows)) in
    let bound =
      prune_bound of_rule (λ k v. str_eq k.version_id v.version_id) kept rows
        (λ k. keys rule_id k.version_id) in
    (
      omega (arith, bound, length-take-le 5 (latest_first (filter of_rule rows))),
      others_kept of_rule (λ v. has_version_id kept v.version_id) rows,
    )

others-insert_version :
    (v : RuleVersion) (rows : List RuleVersion)
    → filter (λ x. not (x.rule_id == v.rule_id)) (insert_version v rows)
      ≡ filter (λ x. not (x.rule_id == v.rule_id)) rows
unfolding insert_version
others-insert_version v rows = elim (Bool-cases (any (is_version v.rule_id v.version_id) rows)) [
  | inl y ↦ rw y refl
  | inr n ↦ rw (n, ==_refl v.rule_id) refl
]

abbrev pub AfterSave : Db → Db → Result Rule → Type 0
AfterSave before after (ok rule) = Pruned rule.id before.versions after.versions
AfterSave before after (err e) = after ≡ before

-- A save that succeeds leaves at most five versions of its rule, and the versions of all other
-- rules as they were, where a rule has no two versions of one name; a save that fails leaves the
-- whole database as it was.
pub save-Pruned :
    (encode_rule : Rule → Json) (version_name : ℕ → String) (user_id : Uuid) (id : Option Uuid)
    (c : RuleColumns) (deps : List (String × Uuid)) (comment : Option String) (now : Instant)
    (fresh : Uuid) (db : Db)
    → HasVersionKeys db.versions
    → let after = save encode_rule version_name user_id id c deps comment now fresh db in
      AfterSave db after.1 after.0
unfolding save save_row
save-Pruned encode_rule version_name user_id id c deps comment now fresh db keys =
    elim (Option-cases (write_rule user_id id c now fresh db.rules)) [
      | inl e ↦ rw e refl
      | inr ((row, rows), e) ↦ rw e (
          let v : RuleVersion = record {
            rule_id = row.id;
            version_id = version_name (now / 1000000);
            rule = encode_rule row;
            comment = comment;
            saved_at = now;
          } in
          let p =
            prune_versions-Pruned row.id (insert_version v db.versions)
              (insert_version-HasVersionKeys v db.versions keys) in
          (p.0, p.1 ∙ others-insert_version v db.versions))
    ]
