-- ===== src/Providers/Webhook/Server.antt =====
-- The webhook server's handlers (pkg/providers/webhook/server.go).
pub mod Answers
use Prim.Native.Char.{Char, code}
use Prim.Native.String
use Prim.Native.String.{[], ◌∷◌}
use operion.Base.{
  ℕ, String, Bool, true, false, not, ◌==◌, eqb, ltb, if◌then◌else◌, List, Dict, Option, none, some,
}
use operion.Models.Value.{Value, nil, string, int64, object, fields, object_of}
use operion.Models.Event.{Error}
use operion.Models.Source.{WebhookSource}
use operion.Store.{Result, ok, err, M, ◌>>=◌, pure, gets, attempt}
use operion.Providers.Webhook.{has_json_schema, webhook_source_by_external_id, webhook_sources}

-- A request as the handler sees it. The body is absent if reading it fails.
pub record WebhookRequest : Type 0 where
  pub path : String
  pub method : String
  pub url : String
  pub remote_addr : String
  pub user_agent : String
  pub content_length : ℕ
  pub request_headers : Dict (List String)
  pub query : Dict (List String)
  pub body : Option String
  -- The number of the body's bytes.
  pub body_size : ℕ

-- What the server calls of Go's libraries and of the schema library: `json.Unmarshal`, the
-- validation of data against a schema, and the layout RFC 3339 of a time.
pub record Library : Type 0 where
  pub parse_json : String → Option Value
  pub validate_schema : Dict Value → Dict Value → Option Error
  pub rfc3339 : ℕ → String

abbrev pub max_request_body_size : ℕ
max_request_body_size = 0x100000

-- `strings.TrimPrefix`.
unfoldable pub without_prefix : String → String → Option String
without_prefix [] s = some s
without_prefix (c ∷ p) [] = none
without_prefix (c ∷ p) (d ∷ s) =
    let rest = without_prefix p s in if eqb (code c) (code d) then rest else none

abbrev or_whole : String → Option String → String
or_whole s none = s
or_whole s (some t) = t

unfoldable pub trim_prefix : String → String → String
unfolding without_prefix
trim_prefix p s = or_whole s (without_prefix p s)

-- `strings.Join`.
unfoldable pub join : String → List String → String
join separator List.[] = ""
join separator (List.◌∷◌ s List.[]) = s
join separator (List.◌∷◌ s (List.◌∷◌ t ts)) =
    String.◌++◌ s (String.◌++◌ separator (join separator (List.◌∷◌ t ts)))

-- `extractHeaders`: a header without values is left out.
unfoldable pub extract_headers : Dict (List String) → Dict Value
extract_headers List.[] = List.[]
extract_headers (List.◌∷◌ (name, List.[]) m) = extract_headers m
extract_headers (List.◌∷◌ (name, List.◌∷◌ s ss) m) =
    List.◌∷◌ (name, string (join ", " (List.◌∷◌ s ss))) (extract_headers m)

-- `extractQueryParams`: the first value of each.
unfoldable pub extract_query_params : Dict (List String) → Dict Value
extract_query_params List.[] = List.[]
extract_query_params (List.◌∷◌ (name, List.[]) m) = extract_query_params m
extract_query_params (List.◌∷◌ (name, List.◌∷◌ s ss) m) =
    List.◌∷◌ (name, string s) (extract_query_params m)

abbrev pub entry : String → Value → Dict Value → Dict Value
entry k v m = List.◌∷◌ (k, v) m

-- `enrichEventData`.
unfoldable pub enrich_event_data : Library → ℕ → Dict Value → WebhookRequest → Dict Value
enrich_event_data l now original_data r =
    entry "webhook"
      (object (
        object_of (
          entry "method" (string r.method) (
            entry "url" (string r.url) (
              entry "remote_addr" (string r.remote_addr) (
                entry "user_agent" (string r.user_agent) (
                  entry "content_length" (int64 r.content_length) (
                    entry "timestamp" (string (l.rfc3339 now)) (
                      entry "headers" (object (object_of (extract_headers r.request_headers))) (
                        entry "query_params" (object (object_of (extract_query_params r.query)))
                          List.[]))))))))))
      (entry "body" (object (object_of original_data)) List.[])

abbrev as_event_data : Option Value → Option (Dict Value)
as_event_data (some (object fs)) = some (fields fs)
as_event_data (some nil) = some List.[]
as_event_data _ = none

-- The event data of a body, `json.Unmarshal` into a map; `null` gives the nil map.
unfoldable pub event_data : Library → String → Option (Dict Value)
event_data l [] = some List.[]
event_data l (c ∷ s) = as_event_data (l.parse_json (c ∷ s))

-- `validateJSONSchema`, where the source has a schema.
unfoldable pub schema_error : Library → WebhookSource → Dict Value → Option Error
schema_error l s data_ = if has_json_schema s then l.validate_schema s.json_schema data_ else none

abbrev pub webhook_provider : String
webhook_provider = "webhook"

abbrev pub webhook_received : String
webhook_received = "webhook_received"

-- What publishes an event, if it has been set.
abbrev pub Callback : Type 0
Callback = String → String → String → Dict Value → M (Unit {0})

abbrev pub status_of : Result (Unit {0}) → ℕ
status_of (err e) = 500
status_of (ok _) = 200

module _ (l : Library) (send : Option Callback) where
  abbrev pub publish_with : Option Callback → String → Dict Value → M (Unit {0})
  publish_with none source data_ = pure tt
  publish_with (some f) source data_ = f source webhook_provider webhook_received data_

  -- From the checked event data on.
  unfoldable pub publish_webhook : WebhookRequest → WebhookSource → Dict Value → M ℕ
  publish_webhook r s data_ = do
    now ← gets (λ w. w.now)
    published ← attempt (publish_with send s.id (enrich_event_data l now data_ r))
    pure (status_of published)

  abbrev pub unless_schema_error : WebhookRequest → WebhookSource → Dict Value → Option Error → M ℕ
  unless_schema_error r s data_ (some e) = pure 400
  unless_schema_error r s data_ none = publish_webhook r s data_

  abbrev pub with_event_data : WebhookRequest → WebhookSource → Option (Dict Value) → M ℕ
  with_event_data r s none = pure 400
  with_event_data r s (some data_) = unless_schema_error r s data_ (schema_error l s data_)

  abbrev pub with_body : WebhookRequest → WebhookSource → Option String → M ℕ
  with_body r s none = pure 400
  with_body r s (some body) =
      if ltb max_request_body_size r.body_size
      then pure 400
      else with_event_data r s (event_data l body)

  abbrev pub with_source : WebhookRequest → Option WebhookSource → M ℕ
  with_source r none = pure 404
  with_source r (some s) = if s.active then with_body r s r.body else pure 404

  -- `handleWebhook`: the status of the response. The file persistence finds a source without an
  -- error.
  unfoldable pub handle_webhook : WebhookRequest → M ℕ
  handle_webhook r =
      if trim_prefix "/webhook/" r.path == ""
      then pure 400
      else if not (r.method == "POST")
      then pure 405
      else webhook_source_by_external_id (trim_prefix "/webhook/" r.path) >>= with_source r
