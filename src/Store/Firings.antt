-- ===== src/Store/Firings.antt =====
-- db/rule_firings.rs: the latest firings of a rule.
use myccmonitor.Prelude.{ℕ, ◌&&◌, List, [], ◌∷◌, if◌then◌else◌, ◌==◌, ltb, filter, take}
use myccmonitor.Json.{Uuid}
use myccmonitor.Store.Tables.{Db, RuleFiring}

-- `ORDER BY fired_at DESC`
unfoldable pub insert_latest : RuleFiring → List RuleFiring → List RuleFiring
insert_latest f [] = f ∷ []
insert_latest f (x ∷ xs) =
    let rest = insert_latest f xs in if ltb f.fired_at x.fired_at then x ∷ rest else f ∷ x ∷ xs

unfoldable pub latest_firings : List RuleFiring → List RuleFiring
unfolding insert_latest
latest_firings [] = []
latest_firings (f ∷ fs) = insert_latest f (latest_firings fs)

unfoldable pub list_recent_for_rule : Uuid → Uuid → ℕ → Db → List RuleFiring
unfolding latest_firings
list_recent_for_rule user_id rule_id limit db =
    take limit
      (latest_firings (filter (λ f. (f.rule_id == rule_id) && (f.user_id == user_id)) db.firings))
