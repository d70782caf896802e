-- ===== src/Models/Event.antt =====
-- The events that the services exchange (pkg/events/events.go and source_events.go).
-- A completion carries its error as a value, not as the text of `Error()`; the identifier, the
-- type and the time stamp of an event's `BaseEvent` are left out.
use operion.Base.{ℕ, String, ◌==◌, if◌then◌else◌, Dict, Option, none, some, lookup}
use operion.Models.Value.{Value, as_string, as_object}

-- What the `error` values of the modelled code say.
pub data Error : Type 0 where
  io_failed : Error
  publish_failed : Error
  workflow_not_found : String → Error
  node_not_found : String → Error
  connection_not_found : String → Error
  context_not_found : String → Error
  state_not_found : String → Error
  no_published_workflow : String → Error
  invalid_id : Error
  invalid_port : String → Error
  -- A constraint of a table is violated.
  constraint_failed : Error
  invalid_workflow : String → Error
  field_required : String → Error
  invalid_config : String → Error
  not_registered : String → Error
  node_failed : String → Error
  -- The status and the body of an answer.
  http_error : ℕ → String → Error
  request_failed : String → Error

pub record NodeActivation : Type 0 where
  pub execution_id : String
  pub node_id : String
  pub workflow_id : String
  pub input_port : String
  pub input_data : Value
  pub source_node : String
  pub source_port : String

pub record NodeCompletion : Type 0 where
  pub execution_id : String
  pub node_id : String
  pub workflow_id : String
  pub status : String
  pub output_data : Dict Value
  pub error_message : Option Error

pub data Event : Type 0 where
  activation : NodeActivation → Event
  completion : NodeCompletion → Event

pub record SourceEvent : Type 0 where
  pub source_id : String
  pub provider_id : String
  pub event_type : String
  pub event_data : Dict Value

-- `NewSourceEvent`.
unfoldable pub new_source_event : String → String → String → Dict Value → SourceEvent
new_source_event source_id provider_id event_type event_data = record {
  source_id = source_id;
  provider_id = provider_id;
  event_type = event_type;
  event_data = event_data;
}

-- `GetEventDataString` and `GetEventDataMap`.
unfoldable pub get_event_data_string : SourceEvent → String → Option String
unfolding as_string lookup
get_event_data_string e key = as_string (lookup key e.event_data)

unfoldable pub get_event_data_map : SourceEvent → String → Option (Dict Value)
unfolding as_object lookup
get_event_data_map e key = as_object (lookup key e.event_data)

-- `SourceEvent.Validate`; `none` is the result `nil`.
unfoldable pub validate_source_event : SourceEvent → Option Error
validate_source_event e =
    if e.source_id == ""
    then some (field_required "source_id")
    else if e.provider_id == ""
    then some (field_required "provider_id")
    else if e.event_type == ""
    then some (field_required "event_type")
    else none
