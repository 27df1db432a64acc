-- ===== src/Monitors/Poller/Once.antt =====
-- monitors/poller.rs: how a cycle ends, and whom it polls.
use myccmonitor.Prelude.{
  Any, All, ℕ, zero, Bool, Option, filter, take, ◌++◌, arith, str_eq, str_eq_iff, ◌&&◌, suc, ◌≡◌,
  refl, String, true, none, some, List, [], ◌∷◌, ◌==◌, if◌then◌else◌, Bool-cases, inl, inr,
}
use myccmonitor.Json.{Uuid, Instant}
use myccmonitor.Error.{unavailable, ok, err}
use myccmonitor.Task.{run}
use myccmonitor.Task.Run.{run_laws}
use myccmonitor.World.{World, query, is_down, tick, now_of}
use myccmonitor.Host.{Host}
use myccmonitor.Store.Rows.{Monitor}
use myccmonitor.Store.Tables.{Db}
use myccmonitor.Monitors.Remote.{Remote}
use myccmonitor.Monitors.Poller.{
  poll_user_org, add_to, by_org, is_some, is_due, is_first, add_due, poll_batch_limit, oldest_first,
  insert_due, due_monitors, OrgGroup, poll_each, poll_due, poll_once,
}

module _ (h : Host) (remote : Remote) where
  -- The groups one after the other, each from what the one before has left, however it ended.
  abbrev pub polled : List OrgGroup → World → World
  polled [] w = w
  polled (g ∷ gs) w = polled gs (run (poll_user_org h remote g) w).1

  poll_each-polled :
      (gs : List OrgGroup) (w : World) → run (poll_each h remote gs) w ≡ (ok tt, polled gs w)
  unfolding poll_each
  poll_each-polled [] w = simp (run_laws) refl
  poll_each-polled (g ∷ gs) w = simp (run_laws) (poll_each-polled gs _)

-- The groups to poll, in the order in which the map is walked.
abbrev pub groups_of : (List OrgGroup → List OrgGroup) → List Monitor → List OrgGroup
groups_of order [] = []
groups_of order (m ∷ ms) = order (by_org (m ∷ ms) [])

poll_due-polled :
    (h : Host) (remote : Remote) (order : List OrgGroup → List OrgGroup) (ms : List Monitor)
    (w : World)
    → run (poll_due h remote order ms) w ≡ (ok tt, polled h remote (groups_of order ms) w)
unfolding poll_due
poll_due-polled h remote order [] w = simp (run_laws) refl
poll_due-polled h remote order (m ∷ ms) w = poll_each-polled h remote _ w

-- The monitor is among those of its user and organisation.
abbrev pub IsGrouped : Monitor → List OrgGroup → Type 0
IsGrouped m gs =
    (org : String) × ((m.cc_org_id ≡ some org)
      × Any (λ g. (g.user_id ≡ m.user_id) × (g.cc_org_id ≡ org) × Any (λ x. x ≡ m) g.monitors) gs)

module _ {A : Type 0} (P : A → Type 0) where
  Any-append : (xs ys : List A) → Any P xs → Any P (xs ++ ys)
  Any-append [] ys h = absurd h
  Any-append (x ∷ xs) ys (inl p) = inl p
  Any-append (x ∷ xs) ys (inr h) = inr (Any-append xs ys h)

Any-last : (m : Monitor) (xs : List Monitor) → Any (λ x. x ≡ m) (xs ++ (m ∷ []))
Any-last m [] = inl refl
Any-last m (x ∷ xs) = inr (Any-last m xs)

-- A group of the user and the organisation that has the monitor.
abbrev HasMonitor : Uuid → String → Monitor → OrgGroup → Type 0
HasMonitor u org m g = (g.user_id ≡ u) × (g.cc_org_id ≡ org) × Any (λ x. x ≡ m) g.monitors

add_to-keeps :
    (u u' : Uuid) (org org' : String) (m m' : Monitor) (gs : List OrgGroup)
    → Any (HasMonitor u org m) gs
    → Any (HasMonitor u org m) (add_to u' org' m' gs)
unfolding add_to
add_to-keeps u u' org org' m m' [] h = absurd h
add_to-keeps u u' org org' m m' (g ∷ gs) h =
    elim (Bool-cases ((g.user_id == u') && str_eq g.cc_org_id org')) [
      | inl y ↦ rw y (elim h [
        | inl (eu, eo, mem) ↦ inl (eu, eo, Any-append _ g.monitors (m' ∷ []) mem)
        | inr rest ↦ inr rest
      ])
      | inr n ↦
          rw n (elim h [ inl p ↦ inl p | inr rest ↦ inr (add_to-keeps u u' org org' m m' gs rest) ])
    ]

add_to-adds :
    (u : Uuid) (org : String) (m : Monitor) (gs : List OrgGroup)
    → Any (HasMonitor u org m) (add_to u org m gs)
unfolding add_to
add_to-adds u org m [] = inl (refl, refl, inl refl)
add_to-adds u org m (g ∷ gs) = elim (Bool-cases ((g.user_id == u) && str_eq g.cc_org_id org)) [
  | inl y ↦ rw y (
      inl (
        ground (arith, y),
        (str_eq_iff g.cc_org_id org).0 (ground (arith, y)),
        Any-last m g.monitors,
      ))
  | inr n ↦ rw n (inr (add_to-adds u org m gs))
]

add_due-keeps :
    (u : Uuid) (org : String) (m m' : Monitor) (o : Option String) (gs : List OrgGroup)
    → Any (HasMonitor u org m) gs
    → Any (HasMonitor u org m) (add_due m' o gs)
add_due-keeps u org m m' none gs h = h
add_due-keeps u org m m' (some org') gs h = add_to-keeps u m'.user_id org org' m m' gs h

by_org-keeps :
    (u : Uuid) (org : String) (m : Monitor) (ms : List Monitor) (gs : List OrgGroup)
    → Any (HasMonitor u org m) gs
    → Any (HasMonitor u org m) (by_org ms gs)
unfolding by_org
by_org-keeps u org m [] gs h = h
by_org-keeps u org m (m' ∷ ms) gs h =
    by_org-keeps u org m ms _ (add_due-keeps u org m m' m'.cc_org_id gs h)

grouped :
    (m : Monitor) (o : Option String) (ms : List Monitor) (gs : List OrgGroup)
    → m.cc_org_id ≡ o
    → is_some o ≡ true
    → IsGrouped m (by_org ms (add_due m o gs))
grouped m none ms gs e h = cc
grouped m (some org) ms gs e h =
    (org, (e, by_org-keeps m.user_id org m ms _ (add_to-adds m.user_id org m gs)))

by_org-IsGrouped :
    (ms : List Monitor) (gs : List OrgGroup)
    → All (λ m. is_some m.cc_org_id ≡ true) ms
    → All (λ m. IsGrouped m (by_org ms gs)) ms
unfolding by_org
by_org-IsGrouped [] gs h = tt
by_org-IsGrouped (m ∷ ms) gs h = (grouped m m.cc_org_id ms gs refl h.0, by_org-IsGrouped ms _ h.1)

-- Every monitor that is due has an organisation.
module _ {A : Type 0} (P : A → Type 0) where
  All-filter_of : (p : A → Bool) (xs : List A) → ((a : A) → p a ≡ true → P a) → All P (filter p xs)
  All-filter_of p [] f = tt
  All-filter_of p (x ∷ xs) f = elim (Bool-cases (p x)) [
    | inl y ↦ rw y (f x y, All-filter_of p xs f)
    | inr n ↦ rw n (All-filter_of p xs f)
  ]

  All-take : (n : ℕ) (xs : List A) → All P xs → All P (take n xs)
  All-take zero xs h = tt
  All-take (suc n) [] h = tt
  All-take (suc n) (x ∷ xs) h = (h.0, All-take n xs h.1)

module _ (P : Monitor → Type 0) where
  All-insert_due : (m : Monitor) (xs : List Monitor) → P m → All P xs → All P (insert_due m xs)
  unfolding insert_due
  All-insert_due m [] p h = (p, tt)
  All-insert_due m (x ∷ xs) p h = elim (Bool-cases (is_first m.last_poll_at x.last_poll_at)) [
    | inl y ↦ rw y (p, h)
    | inr n ↦ rw n (h.0, All-insert_due m xs p h.1)
  ]

  All-oldest_first : (xs : List Monitor) → All P xs → All P (oldest_first xs)
  unfolding oldest_first
  All-oldest_first [] h = tt
  All-oldest_first (x ∷ xs) h = All-insert_due x _ h.0 (All-oldest_first xs h.1)

due-is_some : (now : Instant) (m : Monitor) → is_due now m ≡ true → is_some m.cc_org_id ≡ true
unfolding is_due
due-is_some now m e = elim (Bool-cases (is_some m.cc_org_id)) [
  | inl y ↦ y
  | inr n ↦ ground (arith, n, e)
]

due-IsGrouped :
    (now : Instant) (db : Db)
    → All (λ m. IsGrouped m (by_org (due_monitors now db) [])) (due_monitors now db)
unfolding due_monitors
due-IsGrouped now db = by_org-IsGrouped _ [] (
    All-take _ poll_batch_limit _
      (All-oldest_first _ _ (All-filter_of _ (is_due now) db.monitors (due-is_some now))))

-- A cycle of the poller always ends: where the monitors that are due cannot be read, with an error
-- and the database as before. Else it ends well and is the poll of each group, one after the other
-- in the order in which the map is walked, each on what the one before has left and whatever that
-- one came to; and each monitor that is due is in the group of its user and organisation.
pub poll_once_ends :
    (h : Host) (remote : Remote) (order : List OrgGroup → List OrgGroup) (w : World)
    → let after = run (poll_once h remote order) w in
      let due = due_monitors (now_of w) w.db in
      if is_down w
      then (after.0 ≡ err unavailable) × (after.1.db ≡ w.db)
      else (after ≡ (ok tt, polled h remote (groups_of order due) (tick w)))
        × All (λ m. IsGrouped m (by_org due [])) due
unfolding poll_once query
poll_once_ends h remote order w = elim (Bool-cases (is_down w)) [
  | inl d ↦ simp (run_laws, d) (refl, refl)
  | inr u ↦ simp (run_laws, u) (poll_due-polled h remote order _ _, due-IsGrouped (now_of w) w.db)
]
