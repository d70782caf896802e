-- ===== src/Providers.antt =====
-- The providers of source events (pkg/providers) and the manager that runs them
-- (cmd/operion-source-manager/manager.go): how an event gets onto the bus.
pub mod Scheduler
pub mod Webhook
pub mod Kafka
pub mod Publishing
pub mod Configuring
pub mod Mapped
pub mod Manager
use operion.Base.{
  String, Bool, true, false, ◌&&◌, ◌==◌, if◌then◌else◌, List, [], ◌∷◌, ◌++◌, Dict, insert, Option,
  none, some,
}
use operion.Models.Value.{Value}
use operion.Models.Event.{SourceEvent, new_source_event, validate_source_event, publish_failed}
use operion.Models.Workflow.{Workflow, WorkflowNode, is_trigger_node, status_published}
use operion.Nodes.Common.{text_or}
use operion.Store.{World, M, ◌>>=◌, ◌>>◌, pure, check, io, modify}

abbrev with_event : SourceEvent → World → World
with_event e w = record w { sources = record w.sources { events = w.sources.events ++ (e ∷ []) } }

-- `PublishSourceEvent` (pkg/eventbus/kafka_source_event_bus.go).
unfoldable pub publish_source_event : SourceEvent → M (Unit {0})
publish_source_event e = do
  check (validate_source_event e)
  io publish_failed
  modify (with_event e)

-- The callback of `createSourceEventCallback`.
unfoldable pub callback : String → String → String → Dict Value → M (Unit {0})
callback source_id provider_type event_type event_data = do
  check (validate_source_event (new_source_event source_id provider_type event_type event_data))
  publish_source_event (new_source_event source_id provider_type event_type event_data)

-- `p != nil && *p == text`.
abbrev pub points_to : Option String → String → Bool
points_to none text = false
points_to (some s) text = s == text

abbrev pub with_source : String → String → Dict String → Dict String
with_source node source m = if source == "" then m else insert node source m

-- The source that a node names, if it names one.
abbrev pub named_source : WorkflowNode → String
named_source n = text_or "" n.source_id

module _ (provider : String) (process : WorkflowNode → M String) where
  abbrev process_if : Bool → WorkflowNode → M String
  process_if true n = process n
  process_if false n = pure ""

  -- The loop over the nodes of a workflow: the sources of the trigger nodes of the provider.
  unfoldable pub configure_nodes : List WorkflowNode → Dict String → M (Dict String)
  configure_nodes [] m = pure m
  configure_nodes (n ∷ ns) m = do
    source ← process_if (is_trigger_node n && points_to n.provider_id provider) n
    configure_nodes ns (with_source n.id source m)

  abbrev nodes_if : Bool → List WorkflowNode → List WorkflowNode
  nodes_if true ns = ns
  nodes_if false ns = []

  -- `Configure`, the same in each provider but for what it does with a node: the published
  -- workflows, and from the identifiers of the trigger nodes to those of their sources.
  unfoldable pub configure : List Workflow → Dict String → M (Dict String)
  configure [] m = pure m
  configure (x ∷ xs) m = do
    done_ ← configure_nodes (nodes_if (x.status == status_published) x.nodes) m
    configure xs done_
