-- ===== src/Handlers/Groups/Owned.antt =====
-- handlers/groups.rs: a group and its members have one owner.
use myccmonitor.Prelude.{
  ◌≡◌, refl, ◌∙◌, Bool, true, false, not, ◌&&◌, List, [], ◌∷◌, arith, ◌==◌, any, filter,
  update_where, All, Bool-cases, inl, inr,
}
use myccmonitor.Json.{Uuid, Json}
use myccmonitor.Error.{not_found, forbidden}
use myccmonitor.Task.{run}
use myccmonitor.Task.Invariant.{
  Keeps, Keeps-bind, Keeps-then, Keeps-pure, Keeps-throw, Keeps-if, Keeps-run,
}
use myccmonitor.World.{World}
use myccmonitor.World.Laws.{OnDb, Keeps-query, Keeps-select, Keeps-select_bind}
use myccmonitor.Host.{Host}
use myccmonitor.Store.Rows.{Monitor, MonitorGroup, GroupMember, AutoRules}
use myccmonitor.Store.Tables.{Db}
use myccmonitor.Store.Monitors.{is_owned, list_for_user}
use myccmonitor.Store.Groups.{
  is_group_of, is_member, manual_members, may_add, insert_member, remove_member,
}
use myccmonitor.Store.Groups.Saved.{
  CreateGroup, UpdateGroup, delete_group, new_group, create_group, changed_group, update_group,
}
use myccmonitor.Rules.Fetch.{compute_view}
use myccmonitor.Handlers.Rules.{is_empty, trim, or_fail}
use myccmonitor.Handlers.Requests.{Keeps-or_fail}
use myccmonitor.Handlers.Groups.{
  insert_allowed, add_member_checked, add_member, drop_member, delete, view, create, update,
}

-- Some user has both the group and the monitor.
abbrev pub HasOwner : List MonitorGroup → List Monitor → GroupMember → Type 0
HasOwner groups monitors m =
    (u : Uuid) × (any (is_group_of u m.group_id) groups ≡ true)
    × (any (is_owned u m.monitor_id) monitors ≡ true)

abbrev pub AreOwned : Db → Type 0
AreOwned db = All (HasOwner db.groups db.monitors) db.members

module _ {A : Type 0} (P Q : A → Type 0) where
  All-filter :
      (p : A → Bool) (rows : List A)
      → ((a : A) → p a ≡ true → P a → Q a)
      → All P rows
      → All Q (filter p rows)
  All-filter p [] f k = tt
  All-filter p (a ∷ rows) f k = elim (Bool-cases (p a)) [
    | inl y ↦ rw y (f a y k.0, All-filter p rows f k.1)
    | inr n ↦ rw n (All-filter p rows f k.1)
  ]

  All-map : (rows : List A) → ((a : A) → P a → Q a) → All P rows → All Q rows
  All-map [] f k = tt
  All-map (a ∷ rows) f k = (f a k.0, All-map rows f k.1)

any-update :
    (u g : Uuid) (p : MonitorGroup → Bool) (f : MonitorGroup → MonitorGroup)
    (rows : List MonitorGroup)
    → ((a : MonitorGroup) → is_group_of u g (f a) ≡ is_group_of u g a)
    → any (is_group_of u g) (update_where p f rows) ≡ any (is_group_of u g) rows
any-update u g p f [] same = refl
any-update u g p f (a ∷ rows) same = elim (Bool-cases (p a)) [
  | inl y ↦ rw (y, same a, any-update u g p f rows same) refl
  | inr n ↦ rw (n, any-update u g p f rows same) refl
]

-- A row that passes the test survives the deletion of those that do not.
any-filter :
    (u g user_id id : Uuid) (rows : List MonitorGroup)
    → (g == id) && any (is_group_of user_id id) rows ≡ false
    → any (is_group_of u g) rows ≡ true
    → any (is_group_of u g) (filter (λ a. not (is_group_of user_id id a)) rows) ≡ true
any-filter u g user_id id [] n e = cc
any-filter u g user_id id (a ∷ rows) n e = elim (Bool-cases (is_group_of user_id id a)) [
  | inl y ↦ rw y (any-filter u g user_id id rows (ground (arith, y, n)) (ground (arith, y, n, e)))
  | inr k ↦ rw k (elim (Bool-cases (is_group_of u g a)) [
    | inl y ↦ rw y refl
    | inr n' ↦ rw n' (any-filter u g user_id id rows (ground (arith, k, n)) (rw n' at e))
  ])
]

AreOwned-delete :
    (user_id id : Uuid) (db : Db) → AreOwned db → AreOwned (delete_group user_id id db).1
unfolding delete_group
AreOwned-delete user_id id db k =
    All-filter _ _ _ db.members
      (λ m stays owner. (
        owner.0,
        any-filter owner.0 m.group_id user_id id db.groups (ground (arith, stays)) owner.1,
        owner.2,
      ))
      k

-- The state that the check of `add_member` relies on until its insertion.
abbrev Frozen : Db → Db → Type 0
Frozen before db = AreOwned db × (db.groups ≡ before.groups) × (db.monitors ≡ before.monitors)

both_of : (a b : Bool) → a && b ≡ true → (a ≡ true) × (b ≡ true)
both_of true true e = (refl, refl)
both_of true false e = cc
both_of false b e = cc

insert_member-Frozen :
    (u g m : Uuid) (before db : Db)
    → may_add u g m before ≡ true
    → Frozen before db
    → Frozen before (insert_member g m db)
unfolding may_add insert_member
insert_member-Frozen u g m before db may k =
    let own = both_of _ _ may in
    elim (Bool-cases (any (is_member g m) db.members)) [
      | inl y ↦ rw y k
      | inr n ↦ rw n (((u, rw k.1 own.0, rw k.2 own.1), k.0), k.1, k.2)
    ]

may_add-Frozen :
    (u g m : Uuid) (before db : Db) → Frozen before db → may_add u g m before ≡ may_add u g m db
unfolding may_add
may_add-Frozen u g m before db k = rw (k.1, k.2) refl

insert_allowed-Keeps :
    (u g m : Uuid) (before : Db) (allowed : Bool)
    → may_add u g m before ≡ allowed
    → Keeps (OnDb (Frozen before)) (insert_allowed g m allowed)
unfolding insert_allowed
insert_allowed-Keeps u g m before false e = Keeps-pure false
insert_allowed-Keeps u g m before true e =
    Keeps-query _ (λ now fresh db k. insert_member-Frozen u g m before db e k)

add_member-Keeps : (u g m : Uuid) (before : Db) → Keeps (OnDb (Frozen before)) (add_member u g m)
unfolding add_member add_member_checked
add_member-Keeps u g m before =
    Keeps-bind _
      (Keeps-select_bind (λ allowed. may_add u g m before ≡ allowed) (may_add u g m) _
        (λ db k. may_add-Frozen u g m before db k)
        (λ allowed e. insert_allowed-Keeps u g m before allowed e))
      (λ added. Keeps-if (not added) (λ _. Keeps-throw forbidden) (λ _. Keeps-pure tt))

AreOwned-drop : (u g m : Uuid) (db : Db) → AreOwned db → AreOwned (remove_member u g m db).1
unfolding remove_member
AreOwned-drop u g m db k = elim (Bool-cases (any (is_group_of u g) db.groups)) [
  | inl y ↦ rw y (All-filter _ _ _ db.members (λ m' _ o. o) k)
  | inr n ↦ rw n k
]

drop_member-Keeps : (u g m : Uuid) → Keeps (OnDb AreOwned) (drop_member u g m)
unfolding drop_member
drop_member-Keeps u g m =
    Keeps-then (Keeps-query _ (λ now fresh db k. AreOwned-drop u g m db k)) (Keeps-pure tt)

delete-Keeps : (u id : Uuid) → Keeps (OnDb AreOwned) (delete u id)
unfolding delete
delete-Keeps u id =
    Keeps-bind _ (Keeps-query _ (λ now fresh db k. AreOwned-delete u id db k))
      (λ n. Keeps-if (n == 0) (λ _. Keeps-throw (not_found id)) (λ _. Keeps-pure tt))

module _ (encode_auto_rules : AutoRules → Json) (h : Host) where
  view-Keeps : (u : Uuid) (g : MonitorGroup) → Keeps (OnDb AreOwned) (view h u g)
  unfolding view compute_view
  view-Keeps u g =
      Keeps-bind _ (Keeps-select (list_for_user u))
        (λ ms. Keeps-bind _ (Keeps-select (manual_members g.id)) (λ manual. Keeps-pure _))

  create-Keeps :
      (u : Uuid) (input : CreateGroup) → Keeps (OnDb AreOwned) (create encode_auto_rules h u input)
  unfolding create create_group new_group
  create-Keeps u input =
      Keeps-if (is_empty (trim h input.name)) (λ _. Keeps-throw _)
        (λ _.
          Keeps-bind _
            (Keeps-query _
              (λ now fresh db k. All-map _ _ db.members (λ m o. (o.0, ground (arith, o.1), o.2)) k))
            (λ g. view-Keeps u g))

  update-Keeps :
      (u id : Uuid) (input : UpdateGroup)
      → Keeps (OnDb AreOwned) (update encode_auto_rules h u id input)
  unfolding update update_group changed_group or_fail
  update-Keeps u id input =
      Keeps-bind _
        (Keeps-query _ (λ now fresh db k.
          All-map _ _ db.members
            (λ m o. (o.0, any-update o.0 m.group_id _ _ db.groups (λ a. refl) ∙ o.1, o.2)) k))
        (λ found. Keeps-bind _ (Keeps-or_fail _ found) (λ g. view-Keeps u g))

-- Where each membership joins a group and a monitor of one user, so it does after each request on
-- groups and members, whichever of its calls fail.
pub requests-AreOwned :
    (encode_auto_rules : AutoRules → Json) (h : Host) (u g m : Uuid) (input : CreateGroup)
    (changes : UpdateGroup) (w : World)
    → AreOwned w.db
    → AreOwned (run (create encode_auto_rules h u input) w).1.db
      × AreOwned (run (update encode_auto_rules h u g changes) w).1.db
      × AreOwned (run (delete u g) w).1.db
      × AreOwned (run (add_member u g m) w).1.db
      × AreOwned (run (drop_member u g m) w).1.db
requests-AreOwned encode_auto_rules h u g m input changes w k = (
  (Keeps-run (create-Keeps encode_auto_rules h u input) w (record { on_db = k })).on_db,
  (Keeps-run (update-Keeps encode_auto_rules h u g changes) w (record { on_db = k })).on_db,
  (Keeps-run (delete-Keeps u g) w (record { on_db = k })).on_db,
  (Keeps-run (add_member-Keeps u g m w.db) w (record { on_db = (k, refl, refl) })).on_db.0,
  (Keeps-run (drop_member-Keeps u g m) w (record { on_db = k })).on_db,
)
