-- ===== src/Monitors/StateMap.antt =====
-- monitors/state_map.rs
use myccmonitor.Prelude.{String, ◌||◌, Option, none, some, if◌then◌else◌, str_eq}

unfoldable pub map_cc_app_state : Option String → String
map_cc_app_state none = "unknown"
map_cc_app_state (some s) =
    if str_eq s "UP" || (str_eq s "SHOULD_BE_UP" || str_eq s "WANTS_TO_BE_UP")
    then "ok"
    else if str_eq s "SHOULD_BE_DOWN" || (str_eq s "WANTS_TO_BE_DOWN" || str_eq s "RESTART_FAILED")
    then "critical"
    else "unknown"
