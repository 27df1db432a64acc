-- ===== src/Error.antt =====
-- Errors and results. An `anyhow::Error` carries a text; here each place that makes one has a
-- constructor with the values that its text shows.
use myccmonitor.Prelude.{String, ℕ}

pub data Error : Type 0 where
  -- a call to the database, to Pulsar or to another service failed
  unavailable : Error
  -- no error of the backend: the fuel of a model function ran out
  out_of_fuel : Error
  -- `serde_json::from_value` failed
  decode : Error
  -- rules/field.rs
  empty_field missing_id missing_property : Error
  too_many_colons invalid_uuid unknown_prefix unknown_monitor_prop unknown_group_prop :
      String → Error
  -- rules/condition.rs
  bad_field_prefix : String → Error
  no_children no_actions : Error
  -- rules/cycle.rs
  dependency_cycle : Error
  -- notifications/dispatch.rs and adapters.rs
  channel_not_found : ℕ → Error
  channel_disabled unknown_kind : String → Error
  dispatch_failed : Error → ℕ → Error
  recipients_missing : Error
  url_missing : String → Error
  -- error.rs
  empty_name negative_cooldown forbidden : Error
  not_found : ℕ → Error
  version_not_found : ℕ → String → Error
  -- `sqlx::Error::RowNotFound`
  row_not_found : Error

pub data Result {ℓ} (A : Type ℓ) : Type ℓ where
  ok : A → Result A
  err : Error → Result A

infixl 5 ◌>>=◌ ◌>>◌
abbrev pub ◌>>=◌ {ℓ κ} : {A : Type ℓ} {B : Type κ} → Result A → (A → Result B) → Result B
ok a >>= f = f a
err e >>= f = err e

abbrev pub ◌>>◌ {ℓ κ} : {A : Type ℓ} {B : Type κ} → Result A → Result B → Result B
m >> k = m >>= λ _. k
