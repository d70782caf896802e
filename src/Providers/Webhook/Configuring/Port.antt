-- ===== src/Providers/Webhook/Configuring/Port.antt =====
-- The port of the webhook server (pkg/providers/webhook/provider.go, `getWebhookPort`).
use operion.Base.{
  String, Bool, true, false, ◌==◌, ◌≡◌, refl, inl, inr, Bool-cases, if◌then◌else◌, Dict, lookup,
  Option, none, some,
}
use operion.Models.Value.{
  Value, nil, bool, string, int, int64, int32, float64, float32, slice, object, other,
}
use operion.Models.Number.{ℤ}
use operion.Providers.Webhook.Configuring.{
  is_port, if_port, int_of, configured_port, environment_port, first_of, get_webhook_port,
  validate_webhook_provider,
}

abbrev Ported : Option ℤ → Type 0
Ported none = Unit
Ported (some n) = is_port n ≡ true

if_port-Ported : (o : Option ℤ) → Ported (if_port o)
if_port-Ported none = tt
if_port-Ported (some n) = kept (is_port n) refl
  where
    kept : (b : Bool) → is_port n ≡ b → Ported (if b then some n else none)
    kept true e = e
    kept false e = tt

first_of-is_port :
    (o p : Option ℤ) → Ported o → Ported p → is_port (first_of (λ _. none) o p) ≡ true
unfolding is_port
first_of-is_port (some n) p h k = h
first_of-is_port none (some n) h k = k
first_of-is_port none none h k = refl

module _ (atoi : String → Option ℤ) where
  configured_port-Ported : (o : Option Value) → Ported (configured_port atoi o)
  configured_port-Ported (some (int n)) = if_port-Ported (some (int_of n))
  configured_port-Ported (some (string s)) = if_port-Ported (atoi s)
  configured_port-Ported none = tt
  configured_port-Ported (some nil) = tt
  configured_port-Ported (some (bool b)) = tt
  configured_port-Ported (some (int64 n)) = tt
  configured_port-Ported (some (int32 n)) = tt
  configured_port-Ported (some (float64 n)) = tt
  configured_port-Ported (some (float32 n)) = tt
  configured_port-Ported (some (slice vs)) = tt
  configured_port-Ported (some (object fs)) = tt
  configured_port-Ported (some other) = tt

  environment_port-Ported : (s : String) → Ported (environment_port atoi s)
  environment_port-Ported s = elim (Bool-cases (s == "")) [
    | inl q ↦ rw q tt
    | inr q ↦ rw q (if_port-Ported (atoi s))
  ]

-- Whatever the configuration and the environment say, the provider passes its validation with the
-- port that it takes for its server.
pub get_webhook_port-validate_webhook_provider :
    (atoi : String → Option ℤ) (config : Dict Value) (variable : String)
    → validate_webhook_provider (some (get_webhook_port atoi config variable)) ≡ none
unfolding get_webhook_port validate_webhook_provider
get_webhook_port-validate_webhook_provider atoi config variable =
    rw
      (first_of-is_port (configured_port atoi (lookup "port" config))
        (environment_port atoi variable) (configured_port-Ported atoi (lookup "port" config))
        (environment_port-Ported atoi variable))
      refl
