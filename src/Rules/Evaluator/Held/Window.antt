-- ===== src/Rules/Evaluator/Held/Window.antt =====
-- rules/evaluator.rs, `metric_held`: what the check means on samples in order, and how long a
-- duration the retained samples can show at all.
use myccmonitor.Prelude.{
  ℕ, suc, ◌+◌, ◌*◌, ◌≤◌, ◌≡◌, ◌≢◌, ◌↔◌, refl, Bool, true, false, none, some, List, [], ◌∷◌, ◌++◌,
  arith, all, filter, All, length, Bool-cases, inl, inr, Option-cases,
}
use myccmonitor.Prelude.Int.{ℤ, pos, negsuc, ◌-ℤ◌, ◌*ℤ◌}
use myccmonitor.Json.{Instant, Json}
use myccmonitor.Store.Rows.{MetricReading}
use myccmonitor.Rules.Condition.{CompOp}
use myccmonitor.Rules.Field.{number}
use myccmonitor.Host.{Host}
use myccmonitor.Rules.Evaluator.Compare.{compare}
use myccmonitor.Rules.Evaluator.Held.{
  max_seconds, window_start, is_in_window, is_before_window, find_last, held_from, metric_held,
}

-- Oldest first, as `recent_readings` returns them.
abbrev pub IsOldestFirst : List MetricReading → Type 0
IsOldestFirst [] = Unit
IsOldestFirst (r ∷ rs) = All (λ s. r.ts ≤ s.ts) rs × IsOldestFirst rs

-- The specification: the samples end with one taken before the window, which passes, and after it
-- at least one sample, all of them in the window and passing.
abbrev pub HeldSince : (MetricReading → Bool) → ℤ → List MetricReading → Type 0
HeldSince passes start readings =
    (older : List MetricReading) × (anchor : MetricReading) × (newer : List MetricReading)
    × (readings ≡ older ++ (anchor ∷ newer))
    × (is_before_window start anchor ≡ true)
    × (passes anchor ≡ true)
    × (newer ≢ [])
    × All (λ r. (is_in_window start r ≡ true) × (passes r ≡ true)) newer

module _ (passes : MetricReading → Bool) (start : ℤ) where
  before_of_older :
      (r s : MetricReading)
      → r.ts ≤ s.ts
      → is_before_window start s ≡ true
      → is_before_window start r ≡ true
  before_of_older r s h e = ground arith

  find_last-none :
      (rs : List MetricReading)
      → find_last (is_before_window start) rs ≡ none
      → All (λ r. is_in_window start r ≡ true) rs
  unfolding find_last
  find_last-none [] e = tt
  find_last-none (r ∷ rs) e = elim (Option-cases (find_last (is_before_window start) rs)) [
    | inl p ↦ (ground arith, find_last-none rs p)
    | inr (s, p) ↦ absurd (ground arith)
  ]

  find_last_in_window :
      (rs : List MetricReading)
      → All (λ r. is_in_window start r ≡ true) rs
      → find_last (is_before_window start) rs ≡ none
  unfolding find_last
  find_last_in_window [] h = refl
  find_last_in_window (r ∷ rs) h = ground (arith, find_last_in_window rs h.1)

  filter_in_window :
      (rs : List MetricReading)
      → All (λ r. is_in_window start r ≡ true) rs
      → filter (is_in_window start) rs ≡ rs
  filter_in_window [] h = refl
  filter_in_window (r ∷ rs) h = rw h.0 (rw (filter_in_window rs h.1) refl)

  in_window_of_newer :
      (r : MetricReading) (rs : List MetricReading)
      → is_in_window start r ≡ true
      → All (λ s. r.ts ≤ s.ts) rs
      → All (λ s. is_in_window start s ≡ true) rs
  in_window_of_newer r [] e h = tt
  in_window_of_newer r (s ∷ rs) e h = (ground arith, in_window_of_newer r rs e h.1)

  all_passing :
      (rs : List MetricReading)
      → All (λ r. is_in_window start r ≡ true) rs
      → all passes rs ≡ true
      → All (λ r. (is_in_window start r ≡ true) × (passes r ≡ true)) rs
  all_passing [] h e = tt
  all_passing (r ∷ rs) h e = ((h.0, ground arith), all_passing rs h.1 (ground arith))

  all_of_passing :
      (rs : List MetricReading)
      → All (λ r. (is_in_window start r ≡ true) × (passes r ≡ true)) rs
      → (all passes rs ≡ true) × All (λ r. is_in_window start r ≡ true) rs
  all_of_passing [] h = (refl, tt)
  all_of_passing (r ∷ rs) h = let ih = all_of_passing rs h.1 in (ground arith, (h.0.0, ih.1))

  held_from_sound :
      (rs : List MetricReading)
      → IsOldestFirst rs
      → held_from passes start rs ≡ true
      → HeldSince passes start rs
  unfolding held_from
  held_from_sound [] o e = cc
  held_from_sound (r ∷ rs) o e = elim (Bool-cases (is_before_window start r)) [
    | inl b ↦ elim (Option-cases (find_last (is_before_window start) rs)) [
      | inl p ↦
          let inside = find_last-none rs p in
          let kept = filter_in_window rs inside in
          ([], r, rs, refl, b, ground arith, ground arith, all_passing rs inside (ground arith))
      | inr (s, p) ↦
          let (older, a, newer, eq, ba, pa, some_newer, newer_pass) =
            held_from_sound rs o.1 (ground arith) in
          (r ∷ older, a, newer, cc, ba, pa, some_newer, newer_pass)
    ]
    | inr b ↦
        let inside = in_window_of_newer r rs (ground arith) o.0 in
        absurd (ground (arith, find_last_in_window rs inside))
  ]

  held_from_anchored :
      (a : MetricReading) (newer : List MetricReading)
      → is_before_window start a ≡ true
      → passes a ≡ true
      → newer ≢ []
      → All (λ r. (is_in_window start r ≡ true) × (passes r ≡ true)) newer
      → (held_from passes start (a ∷ newer) ≡ true)
        × (find_last (is_before_window start) (a ∷ newer) ≡ some a)
  unfolding held_from
  held_from_anchored a newer b p ne h =
      let (pass, inside) = all_of_passing newer h in
      let none_later = find_last_in_window newer inside in
      let kept = filter_in_window newer inside in (ground arith, ground arith)

  older_before :
      (r a : MetricReading) (older newer : List MetricReading)
      → All (λ s. r.ts ≤ s.ts) (older ++ (a ∷ newer))
      → r.ts ≤ a.ts
  older_before r a [] newer h = h.0
  older_before r a (o ∷ older) newer h = older_before r a older newer h.1

  held_from_complete :
      (older : List MetricReading) (a : MetricReading) (newer : List MetricReading)
      → IsOldestFirst (older ++ (a ∷ newer))
      → is_before_window start a ≡ true
      → passes a ≡ true
      → newer ≢ []
      → All (λ r. (is_in_window start r ≡ true) × (passes r ≡ true)) newer
      → (held_from passes start (older ++ (a ∷ newer)) ≡ true)
        × (find_last (is_before_window start) (older ++ (a ∷ newer)) ≡ some a)
  unfolding held_from
  held_from_complete [] a newer o b p ne h = held_from_anchored a newer b p ne h
  held_from_complete (r ∷ older) a newer o b p ne h =
      let ih = held_from_complete older a newer o.1 b p ne h in
      let rb = before_of_older r a (older_before r a older newer o.0) b in
      (ground arith, ground arith)

-- A duration on which `chrono` does not panic.
abbrev pub IsInRange : ℤ → Type 0
IsInRange (pos n) = n ≤ max_seconds
IsInRange (negsuc n) = ⊥

abbrev pub passes_reading : Host → CompOp → Json → MetricReading → Bool
passes_reading h op expected r = compare h (number r.value) op expected

-- On samples in order, the metric counts as held exactly where the samples end with one from
-- before the window, and not at its start, that meets the comparison, and at least one after it,
-- all in the window and meeting the comparison; for a duration of at most `max_seconds`.
pub metric_held-HeldSince :
    (h : Host) (readings : List MetricReading) (op : CompOp) (expected : Json) (seconds : ℤ)
    (now : Instant)
    → IsInRange seconds
    → IsOldestFirst readings
    → (metric_held h readings op expected seconds now ≡ true)
      ↔ HeldSince (passes_reading h op expected) (window_start now seconds) readings
unfolding metric_held
metric_held-HeldSince h readings op expected seconds now _ o = (
  held_from_sound (passes_reading h op expected) (window_start now seconds) readings o,
  λ (older, a, newer, e, b, p, ne, all_pass).
      rw e
        (held_from_complete (passes_reading h op expected) (window_start now seconds) older a newer
          (rw e at o) b p ne all_pass).0,
)

-- Each sample is at most `gap` older than the next one, and the last at most `gap` old.
abbrev pub IsSpaced : ℕ → Instant → List MetricReading → Type 0
IsSpaced gap now [] = Unit
IsSpaced gap now (r ∷ []) = now ≤ r.ts + gap
IsSpaced gap now (r ∷ s ∷ rs) = (s.ts ≤ r.ts + gap) × IsSpaced gap now (s ∷ rs)

first_spaced :
    (gap : ℕ) (now : Instant) (r : MetricReading) (rs : List MetricReading)
    → IsSpaced gap now (r ∷ rs)
    → now ≤ r.ts + suc (length rs) * gap
first_spaced gap now r [] h = omega arith
first_spaced gap now r (s ∷ rs) h = grind (arith, first_spaced gap now s rs h.1)

module _ (gap span : ℕ) (now : Instant) where
  spaced_within :
      (rs : List MetricReading)
      → IsSpaced gap now rs
      → length rs * gap ≤ span
      → All (λ r. now ≤ r.ts + span) rs
  spaced_within [] h le = tt
  spaced_within (r ∷ []) h le = (omega arith, tt)
  spaced_within (r ∷ s ∷ rs) h le =
      (omega (arith, first_spaced gap now r (s ∷ rs) h), spaced_within (s ∷ rs) h.1 (grind arith))

  within_in_window :
      (seconds : ℕ) (rs : List MetricReading)
      → span ≤ seconds * 1000000
      → All (λ r. now ≤ r.ts + span) rs
      → All (λ r. is_in_window (window_start now (pos seconds)) r ≡ true) rs
  unfolding window_start ◌-ℤ◌ ◌*ℤ◌
  within_in_window seconds [] le h = tt
  within_in_window seconds (r ∷ rs) le h = (ground arith, within_in_window seconds rs le h.1)

not_held_inside :
    (passes : MetricReading → Bool) (start : ℤ) (rs : List MetricReading)
    → All (λ r. is_in_window start r ≡ true) rs
    → held_from passes start rs ≡ false
unfolding held_from
not_held_inside passes start rs h = ground (arith, find_last_in_window passes start rs h)

-- The samples that are kept bound the durations that can ever be met: `n` samples, each at most
-- `gap` microseconds apart and the last at most that old, never count as held for a duration of
-- `n * gap` or more, whatever their values are, up to `max_seconds`.
pub metric_held_capacity :
    (h : Host) (readings : List MetricReading) (op : CompOp) (expected : Json) (gap seconds : ℕ)
    (now : Instant)
    → IsSpaced gap now readings
    → length readings * gap ≤ seconds * 1000000
    → seconds ≤ max_seconds
    → metric_held h readings op expected (pos seconds) now ≡ false
unfolding metric_held
metric_held_capacity h readings op expected gap seconds now spaced le _ =
    not_held_inside (passes_reading h op expected) (window_start now (pos seconds)) readings (
      within_in_window gap (length readings * gap) now seconds readings le
        (spaced_within gap (length readings * gap) now readings spaced (omega arith)))
