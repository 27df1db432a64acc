-- ===== src/Json.antt =====
-- `serde_json::Value`, and the plain data that the backend takes from other crates:
-- a `Uuid` is its 128-bit value, a `DateTime<Utc>` its microseconds since the epoch, and an `f64`
-- its 64-bit pattern (the operations on it are a parameter, Host.antt).
use myccmonitor.Prelude.{ℕ, String, Bool}

abbrev pub Uuid : Type 0
Uuid = ℕ

abbrev pub Instant : Type 0
Instant = ℕ

abbrev pub Float : Type 0
Float = ℕ

mutual
  pub data Json : Type 0 where
    null : Json
    bool : Bool → Json
    number : ℕ → Json
    string : String → Json
    array : Items → Json
    object : Members → Json

  pub data Items : Type 0 where
    nil : Items
    cons : Json → Items → Items

  pub data Members : Type 0 where
    end : Members
    member : String → Json → Members → Members
