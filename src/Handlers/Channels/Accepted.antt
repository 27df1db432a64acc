-- ===== src/Handlers/Channels/Accepted.antt =====
-- handlers/channels.rs: what every channel in the database has, which is what the validation asks of
-- an input.
use myccmonitor.Prelude.{
  ◌≡◌, refl, String, Bool, true, false, ◌||◌, Option, none, some, List, [], ◌∷◌, arith,
  if◌then◌else◌, ◌==◌, str_eq, All, ◌⊎◌, Bool-cases, inl, inr, filter, update_where,
}
use myccmonitor.Json.{Uuid, Json, Items}
use myccmonitor.Error.{Error, not_found, Result, ok, err}
use myccmonitor.Task.{run, ◌>>=◌, ◌>>◌, pure, throw}
use myccmonitor.Task.Invariant.{Keeps, Keeps-bind, Keeps-pure, Keeps-throw, Keeps-if, Keeps-run}
use myccmonitor.World.{World, Async}
use myccmonitor.World.Laws.{OnDb, Keeps-query, Keeps-select}
use myccmonitor.Host.{Host}
use myccmonitor.Store.Rows.{NotificationChannel}
use myccmonitor.Store.Tables.{Db}
use myccmonitor.Store.Channels.{find_channel}
use myccmonitor.Store.Channels.Saved.{
  UpsertChannel, is_channel_of, new_channel, create_channel, changed_channel, update_channel,
  delete_channel,
}
use myccmonitor.Notifications.Dispatch.{for_kind}
use myccmonitor.Handlers.Rules.{is_empty, trim, of_result}
use myccmonitor.Handlers.Requests.{Keeps-or_fail}
use myccmonitor.Handlers.Channels.{
  get, lacks_items, lacks_text, validate_config, validate, create, update, read, delete,
}

-- A text under the key, and not the empty one.
abbrev pub HasText : String → Json → Type 0
HasText key config = (s : String) × (get key config ≡ some (Json.string s)) × (is_empty s ≡ false)

abbrev pub HasItem : String → Json → Type 0
HasItem key config =
    (j : Json) × (js : Items) × (get key config ≡ some (Json.array (Items.cons j js)))

-- Under the key of its kind, a list that is not empty or a text that is not empty; nothing is said
-- of what they hold.
abbrev pub HasSetting : String → Json → Type 0
HasSetting kind config =
    ((str_eq kind "email" ≡ true) × HasItem "to" config)
    ⊎ (((str_eq kind "slack" || str_eq kind "discord") ≡ true) × HasText "webhook_url" config)
    ⊎ ((str_eq kind "webhook" ≡ true) × HasText "url" config)

-- A name that is not blank, a kind that has an adapter, and the setting of that kind.
abbrev pub IsAccepted : Host → String → String → Json → Type 0
IsAccepted h name kind config =
    (is_empty (trim h name) ≡ false) × (for_kind kind ≡ ok tt) × HasSetting kind config

abbrev pub AreAccepted : Host → Db → Type 0
AreAccepted h db = All (λ c. IsAccepted h c.name c.kind c.config) db.channels

HasText_of :
    (v : Option Json)
    → lacks_text v ≡ false
    → (s : String) × (v ≡ some (Json.string s)) × (is_empty s ≡ false)
unfolding lacks_text
HasText_of none e = cc
HasText_of (some (Json.string s)) e = (s, refl, e)
HasText_of (some Json.null) e = cc
HasText_of (some (Json.bool b)) e = cc
HasText_of (some (Json.number n)) e = cc
HasText_of (some (Json.array js)) e = cc
HasText_of (some (Json.object ms)) e = cc

HasItem_of :
    (v : Option Json)
    → lacks_items v ≡ false
    → (j : Json) × (js : Items) × (v ≡ some (Json.array (Items.cons j js)))
unfolding lacks_items
HasItem_of none e = cc
HasItem_of (some (Json.array (Items.cons j js))) e = (j, js, refl)
HasItem_of (some (Json.array Items.nil)) e = cc
HasItem_of (some Json.null) e = cc
HasItem_of (some (Json.bool b)) e = cc
HasItem_of (some (Json.number n)) e = cc
HasItem_of (some (Json.string s)) e = cc
HasItem_of (some (Json.object ms)) e = cc

accepted : (b : Bool) (x : Error) → (if b then err x else ok (tt {0})) ≡ ok tt → b ≡ false
accepted true x e = cc
accepted false x e = refl

refused : {e : Error} → err e ≡ ok (tt {0}) → ⊥
refused p = cc

for_kind_of :
    (kind : String)
    → (str_eq kind "email"
        || (str_eq kind "slack" || (str_eq kind "discord" || str_eq kind "webhook")))
      ≡ true
    → for_kind kind ≡ ok tt
unfolding for_kind
for_kind_of kind e = rw e refl

validate_config-HasSetting :
    (kind : String) (config : Json)
    → validate_config kind config ≡ ok tt
    → (for_kind kind ≡ ok tt) × HasSetting kind config
unfolding validate_config
validate_config-HasSetting kind config e = elim (Bool-cases (str_eq kind "email")) [
  | inl y ↦ (for_kind_of kind (ground (arith, y)), inl (y, HasItem_of _ (accepted _ _ (rw y at e))))
  | inr n ↦ elim (Bool-cases (str_eq kind "slack" || str_eq kind "discord")) [
    | inl y ↦ (
      for_kind_of kind (ground (arith, n, y)),
      inr (inl (y, HasText_of _ (accepted _ _ (rw (n, y) at e)))),
    )
    | inr n' ↦ elim (Bool-cases (str_eq kind "webhook")) [
      | inl y ↦ (
        for_kind_of kind (ground (arith, n, n', y)),
        inr (inr (y, HasText_of _ (accepted _ _ (rw (n, n', y) at e)))),
      )
      | inr n'' ↦ absurd (refused (rw (n, n', n'') at e))
    ]
  ]
]

module _ (h : Host) where
  validate-IsAccepted :
      (input : UpsertChannel)
      → validate h input ≡ ok tt
      → IsAccepted h input.name input.kind input.config
  unfolding validate
  validate-IsAccepted input e = elim (Bool-cases (is_empty (trim h input.name))) [
    | inl y ↦ absurd (refused (rw y at e))
    | inr n ↦
        let target = validate_config-HasSetting input.kind input.config (rw n at e) in
        (n, target.0, target.1)
  ]

  -- The rows that stay, and those that are changed.
  AreAccepted-filter :
      (p : NotificationChannel → Bool) (rows : List NotificationChannel)
      → All (λ c. IsAccepted h c.name c.kind c.config) rows
      → All (λ c. IsAccepted h c.name c.kind c.config) (filter p rows)
  AreAccepted-filter p [] k = tt
  AreAccepted-filter p (c ∷ rows) k = elim (Bool-cases (p c)) [
    | inl y ↦ rw y (k.0, AreAccepted-filter p rows k.1)
    | inr n ↦ rw n (AreAccepted-filter p rows k.1)
  ]

  AreAccepted-update :
      (p : NotificationChannel → Bool) (f : NotificationChannel → NotificationChannel)
      (rows : List NotificationChannel)
      → ((c : NotificationChannel) → IsAccepted h (f c).name (f c).kind (f c).config)
      → All (λ c. IsAccepted h c.name c.kind c.config) rows
      → All (λ c. IsAccepted h c.name c.kind c.config) (update_where p f rows)
  AreAccepted-update p f [] usable k = tt
  AreAccepted-update p f (c ∷ rows) usable k =
      let rest = AreAccepted-update p f rows usable k.1 in
      elim (Bool-cases (p c)) [ inl y ↦ rw y (usable c, rest) | inr n ↦ rw n (k.0, rest) ]

  -- What comes after the validation may rely on it.
  Keeps-validated :
      {A : Type 0} (r : Result (Unit {0})) (t : Async A)
      → (r ≡ ok tt → Keeps (OnDb (AreAccepted h)) t)
      → Keeps (OnDb (AreAccepted h)) (of_result r >> t)
  unfolding of_result ◌>>◌ ◌>>=◌ pure throw
  Keeps-validated (ok tt) t k = k refl
  Keeps-validated (err e) t k = Keeps-throw e

  create-Keeps :
      (u : Uuid) (input : UpsertChannel) → Keeps (OnDb (AreAccepted h)) (create h u input)
  unfolding create create_channel new_channel
  create-Keeps u input =
      Keeps-validated (validate h input) _
        (λ e. Keeps-query _ (λ now fresh db k. (validate-IsAccepted input e, k)))

  update-Keeps :
      (u id : Uuid) (input : UpsertChannel) → Keeps (OnDb (AreAccepted h)) (update h u id input)
  unfolding update update_channel changed_channel
  update-Keeps u id input = Keeps-validated (validate h input) _ (λ e.
      Keeps-bind _
        (Keeps-query _ (λ now fresh db k.
          AreAccepted-update (is_channel_of u id) _ db.channels (λ c. validate-IsAccepted input e)
            k))
        (Keeps-or_fail _))

  read-Keeps : (u id : Uuid) → Keeps (OnDb (AreAccepted h)) (read u id)
  unfolding read
  read-Keeps u id = Keeps-bind _ (Keeps-select (find_channel u id)) (Keeps-or_fail _)

  delete-Keeps : (u id : Uuid) → Keeps (OnDb (AreAccepted h)) (delete u id)
  unfolding delete delete_channel
  delete-Keeps u id =
      Keeps-bind _ (Keeps-query _ (λ now fresh db k. AreAccepted-filter _ db.channels k))
        (λ n. Keeps-if (n == 0) (λ _. Keeps-throw (not_found id)) (λ _. Keeps-pure tt))

-- Where every channel has a name that is not blank, a kind that has an adapter, and under the key of
-- its kind a list that is not empty (email) or a text that is not empty (the others), so it has
-- after each request on channels, whichever of its calls fail.
pub requests-AreAccepted :
    (h : Host) (u id : Uuid) (input : UpsertChannel) (w : World)
    → AreAccepted h w.db
    → AreAccepted h (run (create h u input) w).1.db
      × AreAccepted h (run (update h u id input) w).1.db
      × AreAccepted h (run (read u id) w).1.db
      × AreAccepted h (run (delete u id) w).1.db
requests-AreAccepted h u id input w k = (
  (Keeps-run (create-Keeps h u input) w (record { on_db = k })).on_db,
  (Keeps-run (update-Keeps h u id input) w (record { on_db = k })).on_db,
  (Keeps-run (read-Keeps h u id) w (record { on_db = k })).on_db,
  (Keeps-run (delete-Keeps h u id) w (record { on_db = k })).on_db,
)
