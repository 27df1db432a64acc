-- ===== src/Rules/Exec/Depth.antt =====
-- rules/exec.rs and actions.rs: the depth of a chain bounds the recursion.
use myccmonitor.Prelude.{
  ℕ, zero, suc, ◌+◌, ◌≤◌, ◌≡◌, refl, ap, String, Bool, false, Option, none, some, List, [], ◌∷◌,
  leb, arith, Bool-cases, inl, inr,
}
use myccmonitor.Json.{Uuid, Instant}
use myccmonitor.Task.{◌>>◌}
use myccmonitor.World.{guarded}
use myccmonitor.Host.{Host}
use myccmonitor.Store.Rows.{Monitor, Rule}
use myccmonitor.Rules.Condition.{Action, set_monitor_state, send_notification, escalate}
use myccmonitor.Rules.Trigger.{Trigger, rule_chain}
use myccmonitor.Rules.Actions.{
  max_chain_depth, Chain, follow_chain, react, change_state, set_state_inside, set_state_of,
  execute,
}
use myccmonitor.Rules.Exec.{
  run_actions, conclude, execute_rule, execute_found, execute_all, trigger_once, trigger_with_depth,
  trigger_for_monitor,
}

-- Two chains that agree one level below `d`, where that level is within the bound.
module _ (h : Host) (f g : Chain) (d : ℕ)
    (agree : (u m : Uuid) (t : Trigger)
      → leb max_chain_depth (d + 1) ≡ false
      → f u m t (d + 1) ≡ g u m t (d + 1)) where
  module _ (rule_id u : Uuid) where
    follow_chain_agree :
        (target : Uuid) → follow_chain h f rule_id u d target ≡ follow_chain h g rule_id u d target
    unfolding follow_chain
    follow_chain_agree target = elim (Bool-cases (leb max_chain_depth (d + 1))) [
      | inl e ↦ rw e
      | inr e ↦ rw (e, agree u target (rule_chain rule_id) e) refl
    ]

    react_agree :
        (target : Uuid) (m : Monitor) (message hint : Option String) (now : Instant)
        (changed : Option (String × Instant))
        → react h f rule_id u d target m message hint now changed
          ≡ react h g rule_id u d target m message hint now changed
    unfolding react
    react_agree target m message hint now none = refl
    react_agree target m message hint now (some (s, since)) = rw (follow_chain_agree target) refl

    set_state_of_agree :
        (target : Uuid) (s : String) (message : Option String) (ack : Option Bool)
        (hint : Option String) (o : Option Monitor)
        → set_state_of h f rule_id u d target s message ack hint o
          ≡ set_state_of h g rule_id u d target s message ack hint o
    unfolding set_state_of set_state_inside change_state
    set_state_of_agree target s message ack hint none = refl
    set_state_of_agree target s message ack hint (some m) = simp react_agree

    execute_agree :
        (a : Action) (hint : Option String)
        → execute h f rule_id u d a hint ≡ execute h g rule_id u d a hint
    unfolding execute
    execute_agree (set_monitor_state target s message ack) hint = simp set_state_of_agree
    execute_agree (send_notification channel_id message subject) hint = refl
    execute_agree (escalate delay_seconds target_rule_id) hint = refl

  execute_rule_agree :
      (rule : Rule) (trigger : Trigger)
      → execute_rule h f rule trigger d ≡ execute_rule h g rule trigger d
  unfolding execute_rule conclude run_actions
  execute_rule_agree rule trigger = simp execute_agree

  execute_found_agree :
      (trigger : Trigger) (fired : ℕ) (o : Option Rule)
      → execute_found h f trigger d fired o ≡ execute_found h g trigger d fired o
  unfolding execute_found
  execute_found_agree trigger fired none = refl
  execute_found_agree trigger fired (some rule) = simp execute_rule_agree

  execute_all_agree :
      (u : Uuid) (trigger : Trigger) (ids : List Uuid) (fired : ℕ)
      → execute_all h f u trigger d ids fired ≡ execute_all h g u trigger d ids fired
  unfolding execute_all
  execute_all_agree u trigger [] fired = refl
  execute_all_agree u trigger (i ∷ rest) fired =
      let ih = execute_all_agree u trigger rest in simp (execute_found_agree, ih)

  trigger_once_agree :
      (u m : Uuid) (t : Trigger) → trigger_once h f u m t d ≡ trigger_once h g u m t d
  unfolding trigger_once
  trigger_once_agree u m t = simp execute_all_agree

-- The recursion as the code has it, `levels` deep, with `bottom` for the calls below.
unfoldable pub unroll : Host → Chain → ℕ → Chain
unroll h bottom zero u m t d = bottom u m t d
unroll h bottom (suc levels) u m t d = trigger_once h (unroll h bottom levels) u m t d

-- Where levels and depth add up to the bound, no call gets below the levels, so that neither
-- their number nor what stands below them matters.
trigger_with_depth_enough :
    (h : Host) (bottom : Chain) (fuel more : ℕ) (u m : Uuid) (t : Trigger) (d : ℕ)
    → 7 ≤ fuel + d
    → 7 ≤ more + d
    → trigger_with_depth h (suc fuel) u m t d ≡ unroll h bottom (suc more) u m t d
unfolding trigger_with_depth unroll
trigger_with_depth_enough h bottom zero more u m t d le le' =
    trigger_once_agree h (trigger_with_depth h zero) (unroll h bottom more) d
      (λ u m t e. absurd (ground arith)) u m t
trigger_with_depth_enough h bottom (suc fuel) zero u m t d le le' =
    trigger_once_agree h (trigger_with_depth h (suc fuel)) (unroll h bottom zero) d
      (λ u m t e. absurd (ground arith)) u m t
trigger_with_depth_enough h bottom (suc fuel) (suc more) u m t d le le' =
    trigger_once_agree h (trigger_with_depth h (suc fuel)) (unroll h bottom (suc more)) d
      (λ u m t e.
        trigger_with_depth_enough h bottom fuel more u m t (d + 1) (ground arith) (ground arith))
      u m t

-- `trigger_for_monitor` is the recursion as the code has it, on a new in-flight set and from depth
-- zero: with any eight levels or more, and whatever stands for the calls below them. So no chain
-- of rules gets to depth eight, and the fuel of the model does not run out.
pub trigger_for_monitor_depth :
    (h : Host) (bottom : Chain) (levels : ℕ) (u m : Uuid) (t : Trigger)
    → 8 ≤ levels
    → trigger_for_monitor h u m t ≡ guarded (λ s. (tt, [])) >> unroll h bottom levels u m t 0
unfolding trigger_for_monitor
trigger_for_monitor_depth h bottom zero u m t le = absurd (omega arith)
trigger_for_monitor_depth h bottom (suc more) u m t le =
    ap (λ rest. guarded (λ s. (tt, [])) >> rest)
      (trigger_with_depth_enough h bottom 7 more u m t 0 (omega arith) (omega arith))
