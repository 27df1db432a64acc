-- ===== src/Monitors/Sync/Rows.antt =====
-- monitors/sync.rs and db/monitors.rs: what upserts and the deletion of what is missing do to the
-- rows of an organisation and to all others.
use myccmonitor.Prelude.{
  ◌≡◌, refl, sym, ◌∙◌, String, Bool, true, false, not, ◌&&◌, ◌||◌, Option, none, some, List, [],
  ◌∷◌, ◌++◌, arith, ◌==◌, ==_refl, str_eq, str_eq_iff, any, filter, find, update_where, Bool-cases,
  Option-cases, inl, inr,
}
use myccmonitor.Json.{Uuid, Instant}
use myccmonitor.Store.Rows.{Monitor}
use myccmonitor.Store.Retention.{str_eq_sym}
use myccmonitor.Store.Monitors.{option_str_eq}
use myccmonitor.Store.Monitors.Cc.{
  MonitorInput, both_eq, conflicts, refreshed, new_monitor, upsert_rows, is_none_of, is_missing,
}

module _ {A : Type 0} where
  any-update :
      (q p : A → Bool) (f : A → A) (rows : List A)
      → ((a : A) → q (f a) ≡ q a)
      → any q (update_where p f rows) ≡ any q rows
  any-update q p f [] same = refl
  any-update q p f (a ∷ rows) same = elim (Bool-cases (p a)) [
    | inl y ↦ rw (y, same a, any-update q p f rows same) refl
    | inr n ↦ rw (n, any-update q p f rows same) refl
  ]

  filter-update :
      (b p : A → Bool) (f : A → A) (rows : List A)
      → ((a : A) → p a ≡ true → b a ≡ true)
      → ((a : A) → b (f a) ≡ b a)
      → filter (λ a. not (b a)) (update_where p f rows) ≡ filter (λ a. not (b a)) rows
  filter-update b p f [] inside same = refl
  filter-update b p f (a ∷ rows) inside same =
      let rest = filter-update b p f rows inside same in
      elim (Bool-cases (p a)) [
        | inl y ↦ rw (y, same a, inside a y, rest) refl
        | inr n ↦ rw (n, rest) refl
      ]

  any-find : (p : A → Bool) (rows : List A) {a : A} → find p rows ≡ some a → any p rows ≡ true
  any-find p [] e = cc
  any-find p (x ∷ rows) e = elim (Bool-cases (p x)) [
    | inl y ↦ rw y refl
    | inr n ↦ rw n (any-find p rows (rw n at e))
  ]

  any-weaken :
      (p q : A → Bool) (rows : List A)
      → ((a : A) → p a ≡ true → q a ≡ true)
      → any p rows ≡ true
      → any q rows ≡ true
  any-weaken p q [] f e = cc
  any-weaken p q (a ∷ rows) f e = elim (Bool-cases (p a)) [
    | inl y ↦ rw (f a y) refl
    | inr n ↦ elim (Bool-cases (q a)) [
      | inl y' ↦ rw y' refl
      | inr n' ↦ rw n' (any-weaken p q rows f (rw n at e))
    ]
  ]

  pub any-stays :
      (q d : A → Bool) (rows : List A)
      → ((a : A) → d a ≡ true → q a ≡ false)
      → any q rows ≡ true
      → any q (filter (λ a. not (d a)) rows) ≡ true
  any-stays q d [] f e = cc
  any-stays q d (a ∷ rows) f e = elim (Bool-cases (d a)) [
    | inl y ↦ rw y (any-stays q d rows f (rw (f a y) at e))
    | inr n ↦ elim (Bool-cases (q a)) [
      | inl y' ↦ rw n (rw y' refl)
      | inr n' ↦ rw n (rw n' (any-stays q d rows f (rw n' at e)))
    ]
  ]

  pub filter-filter :
      (b d : A → Bool) (rows : List A)
      → ((a : A) → d a ≡ true → b a ≡ true)
      → filter (λ a. not (b a)) (filter (λ a. not (d a)) rows) ≡ filter (λ a. not (b a)) rows
  filter-filter b d [] f = refl
  filter-filter b d (a ∷ rows) f =
      let rest = filter-filter b d rows f in
      elim (Bool-cases (d a)) [ inl y ↦ rw (y, f a y, rest) refl | inr n ↦ rw (n, rest) refl ]

  pub none_left :
      (s d : A → Bool) (rows : List A)
      → ((a : A) → s a ≡ true → d a ≡ true)
      → any s (filter (λ a. not (d a)) rows) ≡ false
  none_left s d [] f = refl
  none_left s d (a ∷ rows) f = elim (Bool-cases (d a)) [
    | inl y ↦ rw y (none_left s d rows f)
    | inr n ↦ elim (Bool-cases (s a)) [
      | inl y' ↦ cc (rw (f a y') at n)
      | inr n' ↦ rw n (rw n' (none_left s d rows f))
    ]
  ]

module _ (u : Uuid) (org : String) where
  -- A monitor of the user in the organisation.
  abbrev pub belongs : Monitor → Bool
  belongs m = (m.user_id == u) && option_str_eq m.cc_org_id org

  -- The monitor of one resource of it.
  abbrev pub stands_for : String → String → Monitor → Bool
  stands_for kind id m = belongs m && (str_eq m.kind kind && option_str_eq m.cc_resource_id id)

  swapped : (o : Option String) (s : String) → both_eq o (some s) ≡ option_str_eq o s
  swapped none s = refl
  swapped (some t) s = str_eq_sym s t

  module _ (input : MonitorInput) (id : String) (in_org : input.cc_org_id ≡ some org)
      (has_id : input.cc_resource_id ≡ some id) (now : Instant) (fresh : Uuid) where
    conflicts-stands_for : (m : Monitor) → conflicts u input m ≡ stands_for input.kind id m
    conflicts-stands_for m =
        rw (in_org, has_id, swapped m.cc_org_id org, swapped m.cc_resource_id id) (ground arith)

    conflicts-belongs : (m : Monitor) → conflicts u input m ≡ true → belongs m ≡ true
    conflicts-belongs m e = let stands = sym (conflicts-stands_for m) ∙ e in ground (arith, stands)

    new-stands_for : stands_for input.kind id (new_monitor u input now fresh) ≡ true
    unfolding new_monitor
    new-stands_for =
        rw
          (
            in_org,
            has_id,
            ==_refl u,
            (str_eq_iff org org).1 refl,
            (str_eq_iff input.kind input.kind).1 refl,
            (str_eq_iff id id).1 refl,
          )
          refl

    new-belongs : belongs (new_monitor u input now fresh) ≡ true
    unfolding new_monitor
    new-belongs = rw (in_org, ==_refl u, (str_eq_iff org org).1 refl) refl

    pub upsert-adds :
        (rows : List Monitor)
        → any (stands_for input.kind id) (upsert_rows u input now fresh rows).1 ≡ true
    unfolding upsert_rows refreshed
    upsert-adds rows = elim (Option-cases (find (conflicts u input) rows)) [
      | inl e ↦ rw e (rw new-stands_for refl)
      | inr (m, e) ↦ rw e (
          any-update (stands_for input.kind id) (conflicts u input) (refreshed input now) rows
            (λ a. refl)
          ∙ any-weaken (conflicts u input) _ rows (λ a y. sym (conflicts-stands_for a) ∙ y)
              (any-find _ rows e))
    ]

    pub upsert-stays :
        (kind i : String) (rows : List Monitor)
        → any (stands_for kind i) rows ≡ true
        → any (stands_for kind i) (upsert_rows u input now fresh rows).1 ≡ true
    unfolding upsert_rows refreshed
    upsert-stays kind i rows h = elim (Option-cases (find (conflicts u input) rows)) [
      | inl e ↦ rw e (ground (arith, h))
      | inr (m, e) ↦ rw e (
          any-update (stands_for kind i) (conflicts u input) (refreshed input now) rows (λ a. refl)
          ∙ h)
    ]

    pub upsert-others :
        (rows : List Monitor)
        → filter (λ m. not (belongs m)) (upsert_rows u input now fresh rows).1
          ≡ filter (λ m. not (belongs m)) rows
    unfolding upsert_rows refreshed
    upsert-others rows = elim (Option-cases (find (conflicts u input) rows)) [
      | inl e ↦ rw e (rw new-belongs refl)
      | inr (m, e) ↦ rw e (
          filter-update belongs (conflicts u input) (refreshed input now) rows
            (λ a y. conflicts-belongs a y) (λ a. refl))
    ]

-- The resource of the row is none of those listed.
abbrev pub is_unlisted : Option String → List String → List String → Bool
is_unlisted none apps addons = false
is_unlisted (some id) apps addons =
    not (any (λ k. str_eq id k) apps || any (λ k. str_eq id k) addons)

-- A row of a cloud resource of the organisation that was not listed.
abbrev pub is_stray : Uuid → String → List String → List String → Monitor → Bool
is_stray u org apps addons m =
    belongs u org m
    && ((str_eq m.kind "cc_application" || str_eq m.kind "cc_addon")
        && is_unlisted m.cc_resource_id apps addons)

pub any-append :
    (p : String → Bool) (xs ys : List String) → any p (xs ++ ys) ≡ (any p xs || any p ys)
any-append p [] ys = refl
any-append p (x ∷ xs) ys = elim (Bool-cases (p x)) [
  | inl y ↦ rw y refl
  | inr n ↦ rw n (any-append p xs ys)
]

unlisted-none_of :
    (o : Option String) (apps addons : List String)
    → is_unlisted o apps addons ≡ true
    → is_none_of o (apps ++ addons) ≡ true
unlisted-none_of none apps addons e = cc
unlisted-none_of (some id) apps addons e = rw (any-append (λ k. str_eq id k) apps addons) e

pub stray-missing :
    (u : Uuid) (org : String) (apps addons : List String) (m : Monitor)
    → is_stray u org apps addons m ≡ true
    → is_missing u org (apps ++ addons) m ≡ true
stray-missing u org apps addons m e =
    let gone = unlisted-none_of m.cc_resource_id apps addons (ground (arith, e)) in
    ground (arith, e, gone)

pub missing-belongs :
    (u : Uuid) (org : String) (kept : List String) (m : Monitor)
    → is_missing u org kept m ≡ true
    → belongs u org m ≡ true
missing-belongs u org kept m e = ground (arith, e)

listed-kept :
    (o : Option String) (id : String) (kept : List String)
    → option_str_eq o id ≡ true
    → any (λ k. str_eq id k) kept ≡ true
    → is_none_of o kept ≡ false
listed-kept none id kept e l = cc
listed-kept (some s) id kept e l = rw ((str_eq_iff s id).0 e, l) refl

pub missing-stands_for :
    (u : Uuid) (org kind id : String) (kept : List String) (m : Monitor)
    → any (λ k. str_eq id k) kept ≡ true
    → is_missing u org kept m ≡ true
    → stands_for u org kind id m ≡ false
missing-stands_for u org kind id kept m l e =
    elim (Bool-cases (option_str_eq m.cc_resource_id id)) [
      | inl y ↦ let stays = listed-kept m.cc_resource_id id kept y l in ground (arith, e, stays)
      | inr n ↦ ground (arith, n)
    ]
