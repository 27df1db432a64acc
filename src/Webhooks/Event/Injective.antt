-- ===== src/Webhooks/Event/Injective.antt =====
-- webhooks/event.rs: which webhooks have the same deduplication key.
use Prim.Native.Char.{code}
use Prim.Native.String.{◌++◌}
use text.Mathlib.TextLemmas.{nil-append, cons-append}
use myccmonitor.Prelude.{◌≡◌, ◌↔◌, refl, ap, sym, ◌∙◌, String, false, if◌then◌else◌, ◌==◌}
use myccmonitor.Webhooks.Event.{
  WebhookEnvelope, text_or_empty, key_resource, key_deployment, join_key, dedup_key,
}

abbrev bar : String → String
bar s = String.◌∷◌ "|" s

abbrev pub NoBar : String → Type 0
NoBar String.[] = Unit
NoBar (String.◌∷◌ c s) = ((code c == b'|') ≡ false) × NoBar s

-- The text before the first `|`, and the text after it.
unfoldable cut_bar : String → String × String
cut_bar String.[] = (String.[], String.[])
cut_bar (String.◌∷◌ c s) =
    let (piece, rest) = cut_bar s in
    if code c == b'|' then (String.[], s) else (String.◌∷◌ c piece, rest)

cut_bar-piece : (piece rest : String) → NoBar piece → cut_bar (piece ++ bar rest) ≡ (piece, rest)
unfolding cut_bar
cut_bar-piece String.[] rest h = rw nil-append refl
cut_bar-piece (String.◌∷◌ c s) rest h = rw cons-append (rw (cut_bar-piece s rest h.1, h.0) refl)

cut_equal :
    (a a' r r' : String) → NoBar a → NoBar a' → a ++ bar r ≡ a' ++ bar r' → (a ≡ a') × (r ≡ r')
cut_equal a a' r r' h h' e =
    let q = sym (cut_bar-piece a r h) ∙ (ap cut_bar e ∙ cut_bar-piece a' r' h') in
    (ap (λ p. p.0) q, ap (λ p. p.1) q)

-- Three texts without the bar that separates them.
pub record NoBars (e : WebhookEnvelope) : Type 0 where
  pub event : NoBar e.event
  pub resource : NoBar (key_resource e.application e.addon)
  pub deployment : NoBar (key_deployment e.deployment)

-- What tells two webhooks apart.
pub record SameKey (e e' : WebhookEnvelope) : Type 0 where
  pub event : e.event ≡ e'.event
  pub resource : key_resource e.application e.addon ≡ key_resource e'.application e'.addon
  pub deployment : key_deployment e.deployment ≡ key_deployment e'.deployment
  pub date : text_or_empty e.date ≡ text_or_empty e'.date

-- Two webhooks have the same deduplication key exactly where their events, resources, deployments
-- and dates are the same (one that is missing counts as empty), if no event, resource or deployment
-- has the bar that separates the parts of a key.
pub dedup_key-SameKey :
    (e e' : WebhookEnvelope) → NoBars e → NoBars e' → (dedup_key e ≡ dedup_key e') ↔ SameKey e e'
unfolding dedup_key join_key
dedup_key-SameKey e e' h h' = (
  λ q.
      let (event, q') = cut_equal e.event e'.event _ _ h.event h'.event q in
      let (resource, q'') = cut_equal _ _ _ _ h.resource h'.resource q' in
      let (deployment, date) = cut_equal _ _ _ _ h.deployment h'.deployment q'' in
      record { event = event; resource = resource; deployment = deployment; date = date },
  λ s. rw (s.event, s.resource, s.deployment, s.date) refl,
)
