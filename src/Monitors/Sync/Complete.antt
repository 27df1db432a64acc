-- ===== src/Monitors/Sync/Complete.antt =====
-- monitors/sync.rs: what a synchronisation leaves, and that it fails before it deletes.
use myccmonitor.Prelude.{
  ℕ, suc, ◌≡◌, refl, String, true, false, not, ◌||◌, List, [], ◌∷◌, Option, none, some, any, filter,
  str_eq, map, All, ◌++◌, ◌∙◌, Bool-cases, inl, inr,
}
use myccmonitor.Prelude.Int.{pos, ltb_ℤ}
use myccmonitor.Json.{Uuid, Instant}
use myccmonitor.Error.{unavailable, ok, err}
use myccmonitor.Task.{run, ◌>>=◌}
use myccmonitor.Task.Run.{run_laws}
use myccmonitor.World.{World, Async, ask, is_down, tick}
use myccmonitor.World.Laws.{Keeps-select}
use myccmonitor.World.Moves.{
  Moves, Moves-then, Moves-Keeps, Moves-query, Moves-both, Moves-answered, Moves-weaken,
}
use myccmonitor.World.Up.{
  IsUp, Succeeds, Succeeds-pure, Succeeds-query, Succeeds-select, Succeeds-utc_now, Succeeds-bind,
  Succeeds-then, Succeeds-attempt, Succeeds-if,
}
use myccmonitor.Store.Rows.{Monitor}
use myccmonitor.Store.Tables.{Db}
use myccmonitor.Store.Monitors.{delete_monitors}
use myccmonitor.Store.Monitors.Cc.{MonitorInput, is_missing, delete_missing_in}
use myccmonitor.Monitors.Sync.Upserts.{
  All-zip, All-listed, or_left, or_right, others, others-Keeps, upsert_each-Has, All-Has-Keeps,
}
use myccmonitor.Monitors.Sync.Rows.{
  belongs, stands_for, is_stray, stray-missing, missing-belongs, missing-stands_for, any-stays,
  filter-filter, none_left, any-append,
}
use myccmonitor.Rules.Actions.{broadcast_via_pg}
use myccmonitor.Rules.Cooldown.{seconds_since}
use myccmonitor.Monitors.Remote.{CcApplication, CcAddon, Session, Remote}
use myccmonitor.Monitors.Sync.{
  report_state, record_since, record_sync_state, upsert_one, upsert_each, app_input, addon_input,
  sync_listed, sync_org,
}

module _ (remote : Remote) (user_id : Uuid) (org : String) where
  record_since-Succeeds :
      (m : Monitor) (since : Option Instant) → Succeeds (record_since m org since)
  unfolding record_since report_state broadcast_via_pg
  record_since-Succeeds m none = Succeeds-pure tt
  record_since-Succeeds m (some since) = Succeeds-bind _ Succeeds-utc_now (λ now.
      Succeeds-if (ltb_ℤ (pos 5) (seconds_since now since)) (Succeeds-pure tt) (
        Succeeds-then (Succeeds-attempt (Succeeds-query _))
          (Succeeds-then (Succeeds-attempt (Succeeds-query _)) (Succeeds-pure tt))))

  upsert_each-Succeeds :
      (inputs : List MonitorInput) → Succeeds (upsert_each remote user_id org inputs)
  unfolding upsert_each upsert_one record_sync_state
  upsert_each-Succeeds [] = Succeeds-pure tt
  upsert_each-Succeeds (input ∷ rest) =
      Succeeds-then
        (Succeeds-bind _ (Succeeds-query _) (λ m.
          Succeeds-if (str_eq m.current_state "unknown") (Succeeds-pure tt)
            (record_since-Succeeds m m.current_state_since)))
        (upsert_each-Succeeds rest)

  sync_listed-Succeeds :
      (apps : List CcApplication) (addons : List CcAddon)
      → Succeeds (sync_listed remote user_id org apps addons)
  unfolding sync_listed
  sync_listed-Succeeds apps addons = Succeeds-then (upsert_each-Succeeds _) (
      Succeeds-then (upsert_each-Succeeds _) (Succeeds-then (Succeeds-query _) (Succeeds-select _)))

-- A synchronisation that cannot list the applications or the add-ons of the organisation ends with
-- the error and leaves the whole database as it was: it deletes nothing.
pub sync_org_fails :
    (remote : Remote) (user_id : Uuid) (org : String) (session : Session) (w : World)
    → (is_down w || is_down (tick w)) ≡ true
    → let after = run (sync_org remote user_id org session) w in
      (after.0 ≡ err unavailable) × (after.1.db ≡ w.db)
unfolding sync_org ask
sync_org_fails remote user_id org session w e = elim (Bool-cases (is_down w)) [
  | inl d ↦ simp (run_laws, d) (refl, refl)
  | inr u ↦ elim (Bool-cases (is_down (tick w))) [
    | inl d ↦ simp (run_laws, u, d) (refl, refl)
    | inr u' ↦ cc (rw (u, u') at e)
  ]
]

asked :
    {A B : Type 0} (f : ℕ → A) (g : A → Async B) (w : World)
    → IsUp w.oracle
    → run (ask f >>= g) w ≡ run (g (f w.ticks)) (tick w)
unfolding ask
asked f g w up = simp (run_laws, up.up) refl

-- What a synchronisation leaves of the rows that it found: those of other users and organisations
-- as they were, none of a resource that was not listed, and one for each resource listed.
pub record Synced (u : Uuid) (org : String) (apps : List CcApplication) (addons : List CcAddon)
    (before after : List Monitor) : Type 0 where
  pub same_others : others u org after ≡ others u org before
  pub no_stray : any (is_stray u org (map (λ a. a.id) apps) (map (λ a. a.id) addons)) after ≡ false
  pub has_apps : All (λ a. any (stands_for u org "cc_application" a.id) after ≡ true) apps
  pub has_addons : All (λ a. any (stands_for u org "cc_addon" a.id) after ≡ true) addons

module _ (remote : Remote) (u : Uuid) (org : String) (apps : List CcApplication)
    (addons : List CcAddon) where
  abbrev kept : List String
  kept = map (λ a. a.id) apps ++ map (λ a. a.id) addons

  -- The rows after the upserts, and after the deletion.
  remaining-Synced :
      (base rows : List Monitor)
      → others u org rows ≡ others u org base
      → All (λ a. any (stands_for u org "cc_application" a.id) rows ≡ true) apps
      → All (λ a. any (stands_for u org "cc_addon" a.id) rows ≡ true) addons
      → Synced u org apps addons base (filter (λ m. not (is_missing u org kept m)) rows)
  remaining-Synced base rows o ha hb =
      let ids = map {A = CcApplication} (λ a. a.id) apps in
      let more = map {A = CcAddon} (λ a. a.id) addons in
      record {
        same_others =
            filter-filter (belongs u org) (is_missing u org kept) rows (missing-belongs u org kept)
            ∙ o;
        no_stray =
            none_left (is_stray u org ids more) (is_missing u org kept) rows
              (stray-missing u org ids more);
        has_apps = All-zip apps ha (All-listed (λ a. a.id) apps) (λ a h l.
            any-stays _ (is_missing u org kept) rows
              (λ m e.
                missing-stands_for u org "cc_application" a.id kept m
                  (any-append (λ k. str_eq a.id k) ids more ∙ or_left _ _ l) e)
              h);
        has_addons = All-zip addons hb (All-listed (λ a. a.id) addons) (λ a h l.
            any-stays _ (is_missing u org kept) rows
              (λ m e.
                missing-stands_for u org "cc_addon" a.id kept m
                  (any-append (λ k. str_eq a.id k) ids more ∙ or_right _ l) e)
              h);
      }

  abbrev AppsDone : List Monitor → Db → Type 0
  AppsDone base db =
      (others u org db.monitors ≡ others u org base)
      × All (λ a. any (stands_for u org "cc_application" a.id) db.monitors ≡ true) apps

  apps_move :
      (base : List Monitor)
      → Moves
          (λ db. others u org db.monitors ≡ others u org base)
          (upsert_each remote u org (map (app_input remote u org) apps))
          (AppsDone base)
  apps_move base =
      let input = app_input remote u org in
      Moves-weaken (λ db p. (p, tt))
        (Moves-both
          (Moves-Keeps (
            others-Keeps remote u org input (λ a. a.id) "cc_application" (λ a. refl) (λ a. refl)
              (λ a. refl) (others u org base) apps))
          (upsert_each-Has remote u org input (λ a. a.id) "cc_application" (λ a. refl) (λ a. refl)
            (λ a. refl) apps))

  addons_move :
      (base : List Monitor)
      → Moves
          (AppsDone base)
          (upsert_each remote u org (map (addon_input remote u org) addons))
          (λ db.
            AppsDone base db
            × All (λ a. any (stands_for u org "cc_addon" a.id) db.monitors ≡ true) addons)
  addons_move base =
      let input = addon_input remote u org in
      Moves-weaken (λ db p. (p, tt))
        (Moves-both
          (Moves-both
            (Moves-Keeps (
              others-Keeps remote u org input (λ a. a.id) "cc_addon" (λ a. refl) (λ a. refl)
                (λ a. refl) (others u org base) addons))
            (Moves-Keeps (
              All-Has-Keeps remote u org input (λ a. a.id) "cc_addon" (λ a. refl) (λ a. refl)
                (λ a. refl) "cc_application" (λ a. a.id) apps addons)))
          (upsert_each-Has remote u org input (λ a. a.id) "cc_addon" (λ a. refl) (λ a. refl)
            (λ a. refl) addons))

  sync_listed_moves :
      (base : List Monitor)
      → Moves
          (λ db. others u org db.monitors ≡ others u org base)
          (sync_listed remote u org apps addons)
          (λ db. Synced u org apps addons base db.monitors)
  unfolding sync_listed delete_missing_in delete_monitors
  sync_listed_moves base = Moves-then (apps_move base) (
      Moves-then (addons_move base) (
        Moves-then
          (Moves-query _ (λ now fresh db p. remaining-Synced base db.monitors p.0.0 p.0.1 p.1))
          (Moves-Keeps (Keeps-select _))))

-- Where no call fails, a synchronisation ends well, and with one monitor at least of the user for
-- each application and each add-on that Clever Cloud listed for the organisation, none for another
-- application or add-on of it, and the monitors of all other users and organisations as they were.
pub sync_org-Synced :
    (remote : Remote) (u : Uuid) (org : String) (session : Session) (w : World)
    → IsUp w.oracle
    → let after = run (sync_org remote u org session) w in
      (ms : List Monitor) × ((after.0 ≡ ok ms)
        × Synced u org
            (remote.applications session org w.ticks)
            (remote.addons session org (suc w.ticks))
            w.db.monitors
            after.1.db.monitors)
unfolding sync_org
sync_org-Synced remote u org session w up =
    let apps = remote.applications session org w.ticks in
    let addons = remote.addons session org (suc w.ticks) in
    let w' = tick (tick w) in
    let (ms, (e, up')) = (sync_listed-Succeeds remote u org apps addons).succeeds w' up in
    rw
      (
        asked (remote.applications session org)
            (λ apps.
              ask (remote.addons session org) >>= λ addons. sync_listed remote u org apps addons)
            w up,
        asked (remote.addons session org) (λ addons. sync_listed remote u org apps addons) (tick w)
            up,
      )
      (
        ms,
        (e, Moves-answered w' ms (sync_listed_moves remote u org apps addons w.db.monitors) refl e),
      )
