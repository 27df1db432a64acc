-- ===== src/Handlers/Rules/Saved.antt =====
-- handlers/rules.rs, `save_inner`: all or nothing, and what holds of a rule that is saved.
use myccmonitor.Prelude.{
  ◌≡◌, refl, sym, subst, Option-cases, Bool-cases, inl, inr, Bool, true, false, Option, List, [],
  ◌∷◌, any, All,
}
use myccmonitor.Prelude.Int.{pos, ltb_ℤ}
use myccmonitor.Json.{Uuid, Instant}
use myccmonitor.Error.{empty_name, negative_cooldown, Result, ok, err}
use myccmonitor.Task.{run, pure, throw}
use myccmonitor.Task.Run.{run_laws}
use myccmonitor.World.{World, query, is_down, now_of}
use myccmonitor.World.Post.{Ends, Unchanged, Ends-pure, Ends-throw, Ends-then, Ends-if, Ends-weaken}
use myccmonitor.Host.{Host}
use myccmonitor.Store.Rows.{Rule}
use myccmonitor.Store.Tables.{Db}
use myccmonitor.Store.Ownership.{is_own}
use myccmonitor.Store.Rules.Save.{save, write_rule}
use myccmonitor.Rules.Condition.{
  Action, set_monitor_state, send_notification, escalate, validate_condition, validate_actions,
}
use myccmonitor.Rules.Dependencies.{extract}
use myccmonitor.Rules.Cycle.{Edge, PendingRule}
use myccmonitor.Rules.Cycle.Loaded.{Passes, check_no_cycle_ends}
use myccmonitor.Handlers.Rules.{
  UpsertInput, is_empty, trim, monitor_ids, rule_ids, channel_ids, monitors_of, rules_of,
  channels_of, validate_action_refs, of_result, columns_of, persist, save_checked, save_inner,
}
use myccmonitor.Handlers.Rules.Owned.{IsUnique, OwnsAll, all_owned_ends}

-- What the action names is there, and the user's.
abbrev pub NamesOwn : Uuid → Db → Action → Type 0
NamesOwn u db (set_monitor_state id s message ack) =
    any (is_own (λ m. m.id) (λ m. m.user_id) u id) (monitors_of db) ≡ true
NamesOwn u db (escalate delay id) =
    any (is_own (λ r. r.id) (λ r. r.user_id) u id) (rules_of db) ≡ true
NamesOwn u db (send_notification id message subject) =
    any (is_own (λ c. c.id) (λ c. c.user_id) u id) (channels_of db) ≡ true

-- The primary keys of the tables.
pub record HasUniqueIds (u : Uuid) (db : Db) : Type 0 where
  pub monitors : IsUnique (λ m. m.id) (λ m. m.user_id) u (monitors_of db)
  pub rules : IsUnique (λ r. r.id) (λ r. r.user_id) u (rules_of db)
  pub channels : IsUnique (λ c. c.id) (λ c. c.user_id) u (channels_of db)

module _ (u : Uuid) (before : Db) (ids : HasUniqueIds u before) where
  own-All :
      (actions : List Action)
      → OwnsAll (λ m. m.id) (λ m. m.user_id) monitors_of before u ids.monitors (monitor_ids actions)
      → OwnsAll (λ r. r.id) (λ r. r.user_id) rules_of before u ids.rules (rule_ids actions)
      → OwnsAll (λ c. c.id) (λ c. c.user_id) channels_of before u ids.channels (channel_ids actions)
      → All (NamesOwn u before) actions
  unfolding monitor_ids rule_ids channel_ids
  own-All [] ms rs cs = tt
  own-All (set_monitor_state id s message ack ∷ rest) ms rs cs = (ms.0, own-All rest ms.1 rs cs)
  own-All (escalate delay id ∷ rest) ms rs cs = (rs.0, own-All rest ms rs.1 cs)
  own-All (send_notification id message subject ∷ rest) ms rs cs = (cs.0, own-All rest ms rs cs.1)

  validate_action_refs_ends :
      (actions : List Action)
      → Ends before
          (validate_action_refs u actions)
          (Unchanged before (λ _. All (NamesOwn u before) actions))
  unfolding validate_action_refs
  validate_action_refs_ends actions =
      Ends-then before
        (all_owned_ends (λ m. m.id) (λ m. m.user_id) monitors_of before u ids.monitors _)
        (λ x. refl)
        (λ _ ms.
          Ends-then before
            (all_owned_ends (λ r. r.id) (λ r. r.user_id) rules_of before u ids.rules _) (λ x. refl)
            (λ _ rs.
              Ends-weaken before
                (all_owned_ends (λ c. c.id) (λ c. c.user_id) channels_of before u ids.channels _)
                (λ _ cs. own-All actions ms rs cs)))

of_result_ends :
    {A : Type 0} (before : Db) (r : Result A)
    → Ends before (of_result r) (Unchanged before (λ a. r ≡ ok a))
unfolding of_result
of_result_ends before (ok a) = Ends-pure before a refl
of_result_ends before (err e) = Ends-throw before e refl

run-of_result : {A : Type 0} (r : Result A) (w : World) → run (of_result r) w ≡ (r, w)
unfolding of_result run pure throw
run-of_result (ok a) w = refl
run-of_result (err e) w = refl

module _ (is_cyclic_directed : List Uuid → List Edge → Bool) (h : Host) (u : Uuid)
    (id : Option Uuid) (input : UpsertInput) where
  abbrev pub pending : PendingRule
  pending = record { id = id; condition = input.condition; actions = input.actions }

  -- The statement of the transaction.
  abbrev pub save_now : Instant → Uuid → Db → Result Rule × Db
  save_now now fresh db =
      save h.encode_rule h.version_name u id (columns_of is_cyclic_directed h input)
        (extract h.parse_uuid input.condition) input.comment now fresh db

  -- All that a rule has passed that is saved.
  pub record IsAccepted (before : Db) : Type 0 where
    pub name : is_empty (trim h input.name) ≡ false
    pub cooldown : ltb_ℤ input.cooldown_seconds (pos 0) ≡ false
    pub condition : validate_condition input.condition ≡ ok tt
    pub actions : validate_actions input.actions ≡ ok tt
    pub references : All (NamesOwn u before) input.actions
    pub acyclic : Passes is_cyclic_directed h before u pending

  -- All or nothing.
  abbrev pub SavedOr : Db → Result Rule → Db → Type 0
  SavedOr before (err e) db = db ≡ before
  SavedOr before (ok rule) db =
      IsAccepted before
      × ((now : Instant) × ((fresh : Uuid) × (save_now now fresh before ≡ (ok rule, db))))

  module _ (before : Db) where
    save_now-SavedOr :
        (now : Instant) (fresh : Uuid)
        → IsAccepted before
        → SavedOr before (save_now now fresh before).0 (save_now now fresh before).1
    unfolding save
    save_now-SavedOr now fresh accepted =
        elim (Option-cases
          (write_rule u id (columns_of is_cyclic_directed h input) now fresh before.rules)) [
            | inl e ↦ rw e refl
            | inr ((row, rows), e) ↦ rw e (accepted, (now, (fresh, rw e refl)))
          ]

    persist_ends :
        IsAccepted before → Ends before (persist is_cyclic_directed h u id input) (SavedOr before)
    unfolding persist query
    persist_ends accepted = record {
      ends = λ w e. elim (Bool-cases (is_down w)) [
        | inl d ↦ simp (run_laws, d) e
        | inr up ↦
            simp (run_laws, up, run-of_result)
              (subst
                (λ db.
                  SavedOr before (save_now (now_of w) (w.oracle.fresh w.ticks) db).0
                    (save_now (now_of w) (w.oracle.fresh w.ticks) db).1)
                (sym e) (save_now-SavedOr (now_of w) (w.oracle.fresh w.ticks) accepted))
      ];
    }

    save_checked_ends :
        is_empty (trim h input.name) ≡ false
        → ltb_ℤ input.cooldown_seconds (pos 0) ≡ false
        → HasUniqueIds u before
        → Ends before (save_checked is_cyclic_directed h u id input) (SavedOr before)
    unfolding save_checked
    save_checked_ends named cool ids =
        Ends-then before (of_result_ends before (validate_condition input.condition)) (λ x. refl)
          (λ _ c.
            Ends-then before (of_result_ends before (validate_actions input.actions)) (λ x. refl)
              (λ _ a.
                Ends-then before (validate_action_refs_ends u before ids input.actions) (λ x. refl)
                  (λ _ own.
                    Ends-then before (check_no_cycle_ends is_cyclic_directed h before u pending)
                      (λ x. refl)
                      (λ _ acyclic. persist_ends (record {
                        name = named;
                        cooldown = cool;
                        condition = c;
                        actions = a;
                        references = own;
                        acyclic = acyclic;
                      })))))

    pub save_inner_ends :
        HasUniqueIds u before
        → Ends before (save_inner is_cyclic_directed h u id input) (SavedOr before)
    unfolding save_inner
    save_inner_ends ids =
        Ends-if before (is_empty (trim h input.name)) (λ _. Ends-throw before empty_name refl)
          (λ named.
            Ends-if before (ltb_ℤ input.cooldown_seconds (pos 0))
              (λ _. Ends-throw before negative_cooldown refl)
              (λ cool. save_checked_ends named cool ids))

-- Saving a rule is all or nothing: however its calls fail, an error leaves the whole database as it
-- was, and a success is one transaction of `rules::save` on it, for an input that passed every
-- check: a name that is not blank, a cooldown that is not negative, a valid condition, an action, a
-- graph of rules that passes the cycle test with the new rule in it, and actions that name only
-- monitors, rules and channels of the user; where ids are unique in these three tables.
pub save_inner-SavedOr :
    (is_cyclic_directed : List Uuid → List Edge → Bool) (h : Host) (u : Uuid) (id : Option Uuid)
    (input : UpsertInput) (w : World)
    → HasUniqueIds u w.db
    → let after = run (save_inner is_cyclic_directed h u id input) w in
      SavedOr is_cyclic_directed h u id input w.db after.0 after.1.db
save_inner-SavedOr is_cyclic_directed h u id input w ids =
    (save_inner_ends is_cyclic_directed h u id input w.db ids).ends w refl
