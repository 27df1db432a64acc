-- ===== src/Rules/Cooldown.antt =====
-- rules/exec.rs, `cooldown_decision`, and its mirror in rules/debug.rs, `compute_cooldown`.
use myccmonitor.Prelude.{
  ℕ, ◌+◌, ◌-◌, ◌*◌, ◌/◌, ◌≤◌, ◌<◌, ◌≡◌, ◌↔◌, refl, String, Bool, true, false, ◌&&◌, Option, none,
  some, arith, if◌then◌else◌, leb, str_eq, str_eq_iff, inl, inr, Bool-cases,
}
use myccmonitor.Prelude.Int.{ℤ, pos, negsuc, sub_ℕ, ◌-ℤ◌, ltb_ℤ}
use myccmonitor.Json.{Instant}
use myccmonitor.Store.Rows.{Rule}

-- `now.signed_duration_since(past).num_seconds()`: whole seconds, towards zero.
unfoldable pub seconds_since : Instant → Instant → ℤ
seconds_since now past =
    if leb past now then pos ((now - past) / 1000000) else sub_ℕ 0 ((past - now) / 1000000)

pub data CooldownVerdict : Type 0 where
  fire skip : CooldownVerdict

unfoldable pub cooldown_decision : Option Instant → Option String → ℤ → Instant → CooldownVerdict
unfolding seconds_since
cooldown_decision none prev cooldown_seconds now = fire
cooldown_decision (some last) none cooldown_seconds now = fire
cooldown_decision (some last) (some prev) cooldown_seconds now =
    let elapsed = seconds_since now last in
    let in_cooldown = ltb_ℤ elapsed cooldown_seconds in
    let verdict_unchanged = str_eq prev "matched" in
    if in_cooldown && verdict_unchanged then skip else fire

-- `i64::max(x, 0)`
abbrev pub max_zero : ℤ → ℤ
max_zero (pos n) = pos n
max_zero (negsuc n) = pos 0

pub record CooldownState : Type 0 where
  pub remaining_seconds : ℤ
  pub cooldown_seconds : ℤ
  pub last_fired_at : Option Instant
  pub last_outcome_state : Option String
  pub would_skip_due_to_cooldown : Bool

unfoldable pub remaining_and_skip : Option Instant → Option String → ℤ → Instant → Bool → ℤ × Bool
unfolding seconds_since
remaining_and_skip none prev cooldown_seconds now would_match_now = (pos 0, false)
remaining_and_skip (some last) none cooldown_seconds now would_match_now = (pos 0, false)
remaining_and_skip (some last) (some prev) cooldown_seconds now would_match_now =
    let elapsed = seconds_since now last in
    let in_cooldown = ltb_ℤ elapsed cooldown_seconds in
    let verdict_unchanged = str_eq prev "matched" in
    (max_zero (cooldown_seconds -ℤ elapsed), would_match_now && (in_cooldown && verdict_unchanged))

unfoldable pub compute_cooldown : Rule → Instant → Bool → CooldownState
unfolding remaining_and_skip
compute_cooldown rule now would_match_now =
    let (remaining_seconds, would_skip) =
      remaining_and_skip rule.last_fired_at rule.last_outcome_state rule.cooldown_seconds now
        would_match_now in
    record {
      remaining_seconds = remaining_seconds;
      cooldown_seconds = rule.cooldown_seconds;
      last_fired_at = rule.last_fired_at;
      last_outcome_state = rule.last_outcome_state;
      would_skip_due_to_cooldown = would_skip;
    }

abbrev pub is_skip : CooldownVerdict → Bool
is_skip skip = true
is_skip fire = false

-- The previous evaluation matched and fired, less than `c` seconds ago.
abbrev pub FiredWithin : Option Instant → Option String → ℕ → Instant → Type 0
FiredWithin (some last) (some prev) c now = (prev ≡ "matched") × (now < last + c * 1000000)
FiredWithin _ _ c now = ⊥

elapsed_lt :
    (now last c : ℕ)
    → 1 ≤ c
    → (ltb_ℤ (seconds_since now last) (pos c) ≡ true) ↔ (now < last + c * 1000000)
unfolding seconds_since
elapsed_lt now last c h = ground arith

-- A rule that matches is held back exactly while its last firing, with the same verdict, is less
-- than the cooldown (of at least a second) ago; a first match and a match after another verdict
-- always fire.
pub cooldown_decision-skip :
    (last : Option Instant) (prev : Option String) (c : ℕ) (now : Instant)
    → 1 ≤ c
    → (cooldown_decision last prev (pos c) now ≡ skip) ↔ FiredWithin last prev c now
unfolding cooldown_decision
cooldown_decision-skip none prev c now h = (λ e. cc, λ f. absurd f)
cooldown_decision-skip (some last) none c now h = (λ e. cc, λ f. absurd f)
cooldown_decision-skip (some last) (some prev) c now h =
    let lt = elapsed_lt now last c h in
    let same = str_eq_iff prev "matched" in
    (
      λ e. elim (Bool-cases (ltb_ℤ (seconds_since now last) (pos c))) [
        | inl p ↦ elim (Bool-cases (str_eq prev "matched")) [
          | inl q ↦ (same.0 q, lt.0 p)
          | inr q ↦ cc (rw (p, q) at e)
        ]
        | inr p ↦ cc (rw p at e)
      ],
      λ f. rw (lt.1 f.1, same.1 f.0) refl,
    )

remaining_zero : (elapsed c : ℤ) → max_zero (c -ℤ elapsed) ≡ pos 0 → ltb_ℤ elapsed c ≡ false
unfolding ◌-ℤ◌
remaining_zero elapsed c e = ground arith

remaining-decision :
    (last : Option Instant) (prev : Option String) (c : ℤ) (now : Instant) (matched : Bool)
    → let (remaining, would_skip) = remaining_and_skip last prev c now matched in
      (would_skip ≡ (matched && is_skip (cooldown_decision last prev c now)))
      × (remaining ≡ pos 0 → cooldown_decision last prev c now ≡ fire)
unfolding cooldown_decision remaining_and_skip
remaining-decision none prev c now matched = (ground arith, λ e. refl)
remaining-decision (some last) none c now matched = (ground arith, λ e. refl)
remaining-decision (some last) (some prev) c now matched =
    (ground arith, λ e. rw (remaining_zero (seconds_since now last) c e))

-- The debug panel announces a cooldown skip exactly when the rule matches now and the engine would
-- skip it; and where it shows no time remaining, a match fires.
pub compute_cooldown-decision :
    (rule : Rule) (now : Instant) (matched : Bool)
    → let state = compute_cooldown rule now matched in
      (state.would_skip_due_to_cooldown ≡ (
        matched
        && is_skip (
            cooldown_decision rule.last_fired_at rule.last_outcome_state rule.cooldown_seconds
              now)))
      × (state.remaining_seconds ≡ pos 0
          → cooldown_decision rule.last_fired_at rule.last_outcome_state rule.cooldown_seconds now
            ≡ fire)
unfolding compute_cooldown cooldown_decision
compute_cooldown-decision rule now matched =
    remaining-decision rule.last_fired_at rule.last_outcome_state rule.cooldown_seconds now matched
