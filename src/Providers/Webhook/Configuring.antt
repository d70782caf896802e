-- ===== src/Providers/Webhook/Configuring.antt =====
-- Webhook sources for the trigger nodes of the workflows, and the port of the server
-- (pkg/providers/webhook/provider.go).
pub mod Port
use operion.Base.{
  ℕ, ◌-◌, String, Bool, true, false, ◌&&◌, ◌==◌, ltb, leb, if◌then◌else◌, List, [], ◌∷◌, Dict,
  lookup, insert, Option, none, some, values,
}
use operion.Models.Value.{Value, int, string}
use operion.Models.Number.{ℤ, pos, negsuc}
use operion.Models.Event.{Error, invalid_config}
use operion.Models.Workflow.{Workflow, WorkflowNode}
use operion.Models.Source.{WebhookSource}
use operion.Store.{Result, ok, err, M, ◌>>=◌, ◌>>◌, pure, gets, attempt}
use operion.Activator.{generate_id}
use operion.Providers.{configure, named_source}
use operion.Providers.Webhook.{
  new_webhook_source, update_configuration, save_webhook_source, webhook_source_by_id,
  webhook_sources, get_webhook_url,
}
use operion.Providers.Webhook.Server.{webhook_provider}

-- `uuid` gives the texts of the identifiers that the program generates, in turn.
module _ (uuid : ℕ → String) where
  abbrev pub source_or_new : Bool → String → M String
  source_or_new true source = generate_id uuid
  source_or_new false source = pure source

  abbrev pub unless_failed : String → Result (Unit {0}) → M String
  unless_failed source (err e) = pure ""
  unless_failed source (ok _) = pure source

  abbrev pub save_new : String → Result WebhookSource → M String
  save_new source (err e) = pure ""
  save_new source (ok s) = attempt (save_webhook_source s) >>= unless_failed source

  -- An existing source gets the node's configuration, whether it can be saved or not.
  abbrev pub create_or_update : String → WorkflowNode → Option WebhookSource → M String
  create_or_update source n (some existing) = gets (λ w. w.now) >>= λ now.
      attempt (save_webhook_source (update_configuration now n.config existing)) >>= λ _.
      pure source
  create_or_update source n none = generate_id uuid >>= λ external_id. gets (λ w. w.now) >>= λ now.
      save_new source (new_webhook_source external_id now source n.config)

  -- `processWebhookTriggerNode`: the node's source, or the empty text.
  unfoldable pub process_webhook_trigger_node : WorkflowNode → M String
  process_webhook_trigger_node n = do
    source ← source_or_new (named_source n == "") (named_source n)
    existing ← webhook_source_by_id source
    create_or_update source n existing

  -- `Configure`.
  unfoldable pub configure_webhook : List Workflow → M (Dict String)
  configure_webhook workflows = configure webhook_provider process_webhook_trigger_node workflows []

-- `port > 0 && port <= 65535`.
unfoldable pub is_port : ℤ → Bool
is_port (pos n) = ltb 0 n && leb n 65535
is_port (negsuc n) = false

-- A bit pattern of 64 bits as an `int`.
abbrev int_of : ℕ → ℤ
int_of n = if ltb n 0x8000000000000000 then pos n else negsuc (0xffffffffffffffff - n)

abbrev pub if_port : Option ℤ → Option ℤ
if_port none = none
if_port (some n) = if is_port n then some n else none

-- `atoi` is `strconv.Atoi`.
module _ (atoi : String → Option ℤ) where
  abbrev pub configured_port : Option Value → Option ℤ
  configured_port (some (int n)) = if_port (some (int_of n))
  configured_port (some (string s)) = if_port (atoi s)
  configured_port _ = none

  abbrev pub environment_port : String → Option ℤ
  environment_port s = if s == "" then none else if_port (atoi s)

  abbrev pub first_of : Option ℤ → Option ℤ → ℤ
  first_of (some n) o = n
  first_of none (some n) = n
  first_of none none = pos 8085

  -- `getWebhookPort`, with the provider's configuration and the variable `WEBHOOK_PORT`, which is
  -- empty if it is not set.
  unfoldable pub get_webhook_port : Dict Value → String → ℤ
  get_webhook_port config variable =
      first_of (configured_port (lookup "port" config)) (environment_port variable)

-- `Validate` of a provider, with its port if its server has been made.
unfoldable pub validate_webhook_provider : Option ℤ → Option Error
validate_webhook_provider none = some (invalid_config "server")
validate_webhook_provider (some port) = if is_port port then none else some (invalid_config "port")

abbrev url_of : Option WebhookSource → String
url_of none = ""
url_of (some s) = get_webhook_url s

-- `GetWebhookURL` of the provider.
unfoldable pub get_source_url : String → M String
get_source_url id = do found ← webhook_source_by_id id; pure (url_of found)

unfoldable pub by_external_id : List WebhookSource → Dict WebhookSource → Dict WebhookSource
by_external_id [] m = m
by_external_id (s ∷ ss) m = by_external_id ss (insert s.external_id s m)

-- `GetRegisteredSources`.
unfoldable pub get_registered_sources : M (Dict WebhookSource)
get_registered_sources = do sources ← webhook_sources; pure (by_external_id sources [])
