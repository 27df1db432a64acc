-- ===== src/Handlers/Rules/Requests.antt =====
-- handlers/rules.rs: what the requests on a rule come to.
use myccmonitor.Prelude.{
  ℕ, ◌≡◌, refl, sym, ◌∙◌, String, Bool, true, false, not, Option, none, some, List, [], ◌∷◌, arith,
  if◌then◌else◌, ◌==◌, any, filter, find, count_by, length, Bool-cases, inl, inr,
}
use myccmonitor.Json.{Uuid, Instant, Json}
use myccmonitor.Error.{Error, unavailable, not_found, version_not_found, decode, Result, ok, err}
use myccmonitor.Task.{run}
use myccmonitor.Task.Run.{run_laws}
use myccmonitor.World.{World, query, select, is_down, tick}
use myccmonitor.World.Steady.{IsSteady}
use myccmonitor.World.Post.{Ends, Unchanged, Ends-pure, Ends-throw, Ends-select, Ends-bind}
use myccmonitor.Host.{Host}
use myccmonitor.Store.Rows.{Rule}
use myccmonitor.Store.Tables.{Db}
use myccmonitor.Store.Rules.{find_rule}
use myccmonitor.Store.Rules.Save.{is_rule_of, find_version_payload, delete_rule}
use myccmonitor.Rules.Condition.{Condition, Action}
use myccmonitor.Rules.Cycle.{Edge}
use myccmonitor.Rules.Cycle.Acyclic.{has_edge, feeds, Reaches, check_graph-acyclic}
use myccmonitor.Rules.Cycle.Loaded.{IsIdOf, Passes, covers_for, with_pending}
use myccmonitor.Rules.Exec.{decoded}
use myccmonitor.Rules.Evaluator.Meaning.{holds}
use myccmonitor.Rules.Evaluator.Meaning.Refinement.{HasDurations, evaluate-holds}
use myccmonitor.Handlers.Rules.{
  UpsertInput, or_fail, restored_input, save_inner, restore_version, evaluate_dry, test_dry_run,
  delete,
}
use myccmonitor.Handlers.Rules.Saved.{HasUniqueIds, SavedOr, pending, save_inner_ends}

-- The place of the saved rule: its own where it is updated, else a new one, of no rule before.
abbrev pub IsPlaceOf : Option Uuid → Db → Uuid → Type 0
IsPlaceOf none before id = any (λ r. r.id == id) before.rules ≡ false
IsPlaceOf (some i) before id = id ≡ i

-- The rules of the user with the saved one in its place, in which no rule feeds a second one, and
-- that a third one and so on, back to the first.
abbrev pub HasNoLoop :
    (List Uuid → List Edge → Bool) → Host → Uuid → Option Uuid → UpsertInput → Db → Type 0
HasNoLoop is_cyclic_directed h u id input before =
    (p : Passes is_cyclic_directed h before u (pending is_cyclic_directed h u id input)) × IsPlaceOf
      id before p.id
    × ((a : Uuid)
        → ¬ Reaches
            (feeds
              (with_pending is_cyclic_directed h (pending is_cyclic_directed h u id input) p.id
                p.rules)
              (covers_for is_cyclic_directed h before u))
            a a)

module _ (is_cyclic_directed : List Uuid → List Edge → Bool) (h : Host) (u : Uuid) where
  placed :
      (id : Option Uuid) (before : Db) (i : Uuid)
      → ((n : ℕ) → any (λ r. r.id == h.new_v4 n) before.rules ≡ false)
      → IsIdOf h id i
      → IsPlaceOf id before i
  placed none before i fresh (n, e) = rw e (fresh n)
  placed (some j) before i fresh e = e

  no_loop :
      (id : Option Uuid) (input : UpsertInput) (before db : Db) (r : Result Rule) (rule : Rule)
      → ((nodes : List Uuid) (es : List Edge) (a : Uuid)
          → Reaches (has_edge es) a a
          → is_cyclic_directed nodes es ≡ true)
      → ((n : ℕ) → any (λ r. r.id == h.new_v4 n) before.rules ≡ false)
      → SavedOr is_cyclic_directed h u id input before r db
      → r ≡ ok rule
      → HasNoLoop is_cyclic_directed h u id input before
  no_loop id input before db (err x) rule finds fresh s e = cc
  no_loop id input before db (ok rule') rule finds fresh s e =
      let p = (s.0).acyclic in
      (
        p,
        placed id before p.id fresh p.is_id,
        check_graph-acyclic is_cyclic_directed _ (covers_for is_cyclic_directed h before u) finds
            p.passes,
      )

-- A rule that is saved closes no loop: where `is_cyclic_directed` answers true on every graph in
-- which some node reaches itself, the rules of the user with the saved one in its place have no
-- loop of rules that feed each other; where ids are unique in the tables of monitors, rules and
-- channels.
pub save_inner-HasNoLoop :
    (is_cyclic_directed : List Uuid → List Edge → Bool) (h : Host) (u : Uuid) (id : Option Uuid)
    (input : UpsertInput) (w : World) (rule : Rule)
    → ((nodes : List Uuid) (es : List Edge) (a : Uuid)
        → Reaches (has_edge es) a a
        → is_cyclic_directed nodes es ≡ true)
    → ((n : ℕ) → any (λ r. r.id == h.new_v4 n) w.db.rules ≡ false)
    → HasUniqueIds u w.db
    → (run (save_inner is_cyclic_directed h u id input) w).0 ≡ ok rule
    → HasNoLoop is_cyclic_directed h u id input w.db
save_inner-HasNoLoop is_cyclic_directed h u id input w rule finds fresh ids e =
    no_loop is_cyclic_directed h u id input w.db _ _ rule finds fresh
      ((save_inner_ends is_cyclic_directed h u id input w.db ids).ends w refl) e

-- The snapshot of a version of the user's rule, decoded.
pub record HasSnapshot (h : Host) (u id : Uuid) (version_id : String) (db : Db) : Type 0 where
  pub payload : Json
  pub found : find_version_payload u id version_id db ≡ some payload
  pub snap : Rule
  pub is_snap : h.decode_rule payload ≡ some snap
  pub condition : Condition
  pub is_condition : h.decode_condition snap.condition ≡ some condition
  pub actions : List Action
  pub are_actions : h.decode_actions snap.actions ≡ some actions

module _ (is_cyclic_directed : List Uuid → List Edge → Bool) (h : Host) (u id : Uuid)
    (version_id : String) where
  abbrev input_of : {db : Db} → HasSnapshot h u id version_id db → UpsertInput
  input_of s = restored_input is_cyclic_directed h s.snap version_id s.condition s.actions

  -- All or nothing.
  abbrev pub RestoredOr : Db → Result Rule → Db → Type 0
  RestoredOr before (err e) db = db ≡ before
  RestoredOr before (ok rule) db =
      (s : HasSnapshot h u id version_id before) × SavedOr is_cyclic_directed h u (some id)
        (input_of s) before (ok rule) db

  module _ (before : Db) where
    or_fail_ends :
        {A : Type 0} (e : Error) (o : Option A)
        → Ends before (or_fail e o) (Unchanged before (λ a. o ≡ some a))
    unfolding or_fail
    or_fail_ends e none = Ends-throw before e refl
    or_fail_ends e (some a) = Ends-pure before a refl

    decoded_ends :
        {A : Type 0} (o : Option A) → Ends before (decoded o) (Unchanged before (λ a. o ≡ some a))
    unfolding decoded
    decoded_ends none = Ends-throw before decode refl
    decoded_ends (some a) = Ends-pure before a refl

    saved-restored :
        (s : HasSnapshot h u id version_id before) (r : Result Rule) (db : Db)
        → SavedOr is_cyclic_directed h u (some id) (input_of s) before r db
        → RestoredOr before r db
    saved-restored s (ok rule) db saved = (s, saved)
    saved-restored s (err e) db saved = saved

    restore_version_ends :
        HasUniqueIds u before
        → Ends before (restore_version is_cyclic_directed h u id version_id) (RestoredOr before)
    unfolding restore_version
    restore_version_ends ids =
        Ends-bind before {P = λ o. o ≡ find_version_payload u id version_id before} _
          (Ends-select before (find_version_payload u id version_id) refl) (λ x. refl)
          (λ o e1.
            Ends-bind before _ (or_fail_ends (version_not_found id version_id) o) (λ x. refl)
              (λ p e2.
                Ends-bind before _ (decoded_ends (h.decode_rule p)) (λ x. refl)
                  (λ snap e3.
                    Ends-bind before _ (decoded_ends (h.decode_condition snap.condition))
                      (λ x. refl)
                      (λ c e4.
                        Ends-bind before _ (decoded_ends (h.decode_actions snap.actions))
                          (λ x. refl)
                          (λ as' e5.
                            let s : HasSnapshot h u id version_id before = record {
                              payload = p;
                              found = sym e1 ∙ e2;
                              snap = snap;
                              is_snap = e3;
                              condition = c;
                              is_condition = e4;
                              actions = as';
                              are_actions = e5;
                            } in
                            record {
                              ends = λ w e. saved-restored s _ _ (
                                  (save_inner_ends is_cyclic_directed h u (some id) (input_of s)
                                      before ids).ends
                                    w e);
                            })))))

-- Restoring a version is all or nothing: an error leaves the whole database as it was; a success is
-- the save, with all its checks, of the rule as the snapshot of that version of the user's own rule
-- has it; where ids are unique in the tables of monitors, rules and channels.
pub restore_version-RestoredOr :
    (is_cyclic_directed : List Uuid → List Edge → Bool) (h : Host) (u id : Uuid)
    (version_id : String) (w : World)
    → HasUniqueIds u w.db
    → let after = run (restore_version is_cyclic_directed h u id version_id) w in
      RestoredOr is_cyclic_directed h u id version_id w.db after.0 after.1.db
restore_version-RestoredOr is_cyclic_directed h u id version_id w ids =
    (restore_version_ends is_cyclic_directed h u id version_id w.db ids).ends w refl

filter-not-find :
    {A : Type 0} (p : A → Bool) (xs : List A) → find p (filter (λ a. not (p a)) xs) ≡ none
filter-not-find p [] = refl
filter-not-find p (x ∷ xs) = elim (Bool-cases (p x)) [
  | inl y ↦ rw y (filter-not-find p xs)
  | inr n ↦ rw (n, n) (filter-not-find p xs)
]

any-count :
    {A : Type 0} (p : A → Bool) (xs : List A) → any p xs ≡ true → (count_by p xs == 0) ≡ false
any-count p [] e = cc
any-count p (x ∷ xs) e = ground (arith, any-count p xs)

-- Deleting a rule: a failed call leaves the database as it was, and so does an id that is not the
-- one of a rule of the user, which is an error; else the user has no rule with the id afterwards.
pub delete_outcome :
    (u id : Uuid) (w : World)
    → let after = run (delete u id) w in
      if is_down w
      then (after.0 ≡ err unavailable) × (after.1.db ≡ w.db)
      else if any (is_rule_of u id) w.db.rules
      then (after.0 ≡ ok tt) × (find_rule u id after.1.db ≡ none)
      else (after.0 ≡ err (not_found id)) × (after.1.db ≡ w.db)
unfolding delete delete_rule query find_rule
delete_outcome u id w = elim (Bool-cases (is_down w)) [
  | inl d ↦ simp (run_laws, d) (refl, refl)
  | inr up ↦ elim (Bool-cases (any (is_rule_of u id) w.db.rules)) [
    | inl y ↦
        simp (run_laws, up, y, any-count (is_rule_of u id) w.db.rules y)
          (refl, filter-not-find (is_rule_of u id) w.db.rules)
    | inr n ↦ simp (run_laws, up, n) (refl, refl)
  ]
]

-- A test run of a rule of the user changes nothing but the time, and answers as the condition says:
-- it matches where the condition holds, and then all the actions would run, else none; where no
-- call fails, the clock stands still and no duration is beyond `max_seconds`.
pub test_dry_run-holds :
    (h : Host) (u id : Uuid) (now : Instant) (rule : Rule) (c : Condition) (actions : List Action)
    (is_cyclic_directed : List Uuid → List Edge → Bool) (w : World)
    → IsSteady w.oracle now
    → HasDurations c
    → find_rule u id w.db ≡ some rule
    → h.decode_condition rule.condition ≡ some c
    → h.decode_actions rule.actions ≡ some actions
    → let matches = holds h rule.user_id w.db now c in
      (n : ℕ) × (run (test_dry_run is_cyclic_directed h u id) w ≡ (
        ok (record {
          matched = matches;
          actions_that_would_run = if matches then length actions else 0;
        }),
        record w { ticks = n },
      ))
unfolding test_dry_run or_fail evaluate_dry decoded select query
test_dry_run-holds h u id now rule c actions is_cyclic_directed w steady durations e1 e2 e3 =
    let (n, (cache, e)) = evaluate-holds h rule.user_id now c (tick w) steady durations in
    (n, simp (run_laws, steady.up, e1, e2, e3, e) refl)
