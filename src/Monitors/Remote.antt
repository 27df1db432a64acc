-- ===== src/Monitors/Remote.antt =====
-- What the answers of Clever Cloud's API (the structs of api/cc_client.rs), of Warp10 and of
-- Postgres's advisory locks are, and how its collation orders texts: nothing is assumed of them. An
-- answer is indexed by the step at which the call is made.
use myccmonitor.Prelude.{ℕ, String, Bool, Option, List}
use myccmonitor.Prelude.Int.{ℤ}
use myccmonitor.Json.{Uuid, Float, Json}
use myccmonitor.Store.Rows.{User}

pub record CcVariant : Type 0 where
  pub name : Option String
  pub slug : Option String

pub record CcInstance : Type 0 where
  pub instance_type : Option String
  pub variant : Option CcVariant

pub record CcApplication : Type 0 where
  pub id : String
  pub name : String
  pub description : Option String
  pub app_type : Option String
  pub state : Option String
  pub app_instance : Option CcInstance
  pub zone : Option String
  pub last_deploy : Option ℤ

pub record CcAddonProvider : Type 0 where
  pub id : Option String
  pub name : Option String

pub record CcAddon : Type 0 where
  pub id : String
  pub name : String
  pub real_id : Option String
  pub region : Option String
  pub provider : Option CcAddonProvider
  pub creation_date : Option ℤ

-- The access token and its secret.
abbrev pub Session : Type 0
Session = String × String

-- The readings of one resource: cpu, mem, disk, net_in, net_out, each widened to an `f64`.
pub record MetricsTuple : Type 0 where
  pub cpu : Option Float
  pub mem : Option Float
  pub disk : Option Float
  pub net_in : Option Float
  pub net_out : Option Float

pub record Remote : Type 0 where
  -- `CcClient::list_applications` and `list_addons`
  pub applications : Session → String → ℕ → List CcApplication
  pub addons : Session → String → ℕ → List CcAddon
  -- `metrics::fetch_metrics`
  pub metrics : Session → Uuid → String → List String → ℕ → List (String × MetricsTuple)
  -- `SELECT pg_try_advisory_xact_lock($1)` on the key of a monitor
  pub lock : Uuid → ℕ → Bool
  -- `auth::decrypt_user_oauth`
  pub decrypt : User → Option Session
  -- the `json!` literals of the metadata
  pub app_metadata : CcApplication → Json
  pub addon_metadata : CcAddon → Option String → Json
  -- `<=` on texts in the collation of the database
  pub text_le : String → String → Bool
