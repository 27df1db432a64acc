-- ===== src/Rules/Condition.antt =====
-- rules/condition.rs: the condition tree and the actions of a rule, and their static validation.
-- `Vec<Condition>` is the second type of the block.
use myccmonitor.Prelude.{
  ℕ, String, Bool, not, ◌&&◌, Option, List, [], ◌∷◌, if◌then◌else◌, str_starts_with,
}
use myccmonitor.Json.{Uuid, Json}
use myccmonitor.Error.{bad_field_prefix, no_children, no_actions, Result, ok, err, ◌>>◌}

pub data CompOp : Type 0 where
  eq neq gt gte lt lte contains not_contains : CompOp

pub data LogicalOp : Type 0 where
  and or : LogicalOp

pub record DurationSpec : Type 0 where
  pub seconds : ℕ

mutual
  pub data Condition : Type 0 where
    comparison :
        (field : String) (operator : CompOp) (value : Json) (for_duration : Option DurationSpec)
        → Condition
    logical : (op : LogicalOp) (children : Children) → Condition

  pub data Children : Type 0 where
    no_child : Children
    child : Condition → Children → Children

pub data Action : Type 0 where
  set_monitor_state :
      (target_monitor_id : Uuid) (state : String) (message : Option String)
      (acknowledged : Option Bool)
      → Action
  send_notification : (channel_id : Uuid) (message : String) (subject : Option String) → Action
  escalate : (delay_seconds : ℕ) (target_rule_id : Uuid) → Action

abbrev is_empty : Children → Bool
is_empty no_child = Bool.true
is_empty (child c cs) = Bool.false

unfoldable mutual
  pub validate_condition : Condition → Result (Unit {0})
  validate_condition (comparison field operator value for_duration) =
      if not (str_starts_with field "monitor:") && not (str_starts_with field "group:")
      then err (bad_field_prefix field)
      else ok tt
  validate_condition (logical op children) =
      let each = validate_children children in if is_empty children then err no_children else each

  pub validate_children : Children → Result (Unit {0})
  validate_children no_child = ok tt
  validate_children (child c cs) = do validate_condition c; validate_children cs

unfoldable pub validate_actions : List Action → Result (Unit {0})
validate_actions [] = err no_actions
validate_actions (a ∷ rest) = ok tt
