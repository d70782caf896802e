-- ===== src/Registry.antt =====
-- The registry of node types (pkg/registry/registry.go), over the protocol that a node implements
-- (pkg/protocol/node.go), and of the
-- providers of source events.
use operion.Base.{
  String, Bool, not, ◌&&◌, Dict, List, [], is_empty, insert, lookup, values, Option, none, some,
}
use operion.Models.Value.{Value}
use operion.Models.Execution.{NodeResult, ExecutionContext, InputRequirements}
use operion.Models.Event.{not_registered}
use operion.Models.Workflow.{Workflow}
use operion.Store.{Result, err, M}

-- A node as the worker uses it. `input_requirements` is there if the node implements
-- `NodeInputRequirements`. A nil error is `ok`.
pub record Node : Type 0 where
  pub input_requirements : Option InputRequirements
  pub execute : ExecutionContext → Dict NodeResult → Result (Dict NodeResult)

pub record NodeFactory : Type 0 where
  pub id : String
  pub create : String → Dict Value → Result Node

-- What a provider that implements `ProviderLifecycle` does before its start
-- (pkg/protocol/lifecycle.go); `configure` gives the sources of trigger nodes.
pub record Lifecycle : Type 0 where
  pub initialize : M (Unit {0})
  pub configure : List Workflow → M (Dict String)
  pub prepare : M (Unit {0})

-- A provider of source events (pkg/protocol/source.go). `lifecycle` is there if it implements
-- `ProviderLifecycle`; `start` is given the callback for its events.
pub record Provider : Type 0 where
  pub lifecycle : Option Lifecycle
  pub start : (String → String → String → Dict Value → M (Unit {0})) → M (Unit {0})
  pub stop : M (Unit {0})

pub record ProviderFactory : Type 0 where
  pub id : String
  pub create : Dict Value → Result Provider

pub record Registry : Type 0 where
  pub node_factories : Dict NodeFactory
  pub provider_factories : Dict ProviderFactory

-- `NewRegistry`.
unfoldable pub new_registry : Registry
new_registry = record { node_factories = []; provider_factories = [] }

-- `RegisterProvider`.
unfoldable pub register_provider : ProviderFactory → Registry → Registry
register_provider factory r = record r {
  provider_factories = insert factory.id factory r.provider_factories;
}

-- `RegisterNode`: a later factory for the same type replaces the earlier one.
unfoldable pub register_node : NodeFactory → Registry → Registry
register_node factory r = record r { node_factories = insert factory.id factory r.node_factories }

abbrev create_with : String → String → Dict Value → Option NodeFactory → Result Node
create_with type id config none = err (not_registered type)
create_with type id config (some factory) = factory.create id config

-- `CreateNode`.
unfoldable pub create_node : Registry → String → String → Dict Value → Result Node
create_node r type id config = create_with type id config (lookup type r.node_factories)

abbrev create_provider_with : String → Dict Value → Option ProviderFactory → Result Provider
create_provider_with id config none = err (not_registered id)
create_provider_with id config (some factory) = factory.create config

-- `CreateProvider`.
unfoldable pub create_provider : Registry → String → Dict Value → Result Provider
create_provider r id config = create_provider_with id config (lookup id r.provider_factories)

-- `GetAvailableProviders` and `AvailableNodes`, in the order of the dictionary.
unfoldable pub get_available_providers : Registry → List ProviderFactory
get_available_providers r = values r.provider_factories

unfoldable pub available_nodes : Registry → List NodeFactory
available_nodes r = values r.node_factories

-- `HealthCheck`, without its message.
unfoldable pub registry_is_healthy : Registry → Bool
registry_is_healthy r = not (is_empty r.provider_factories && is_empty r.node_factories)
