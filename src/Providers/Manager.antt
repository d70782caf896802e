-- ===== src/Providers/Manager.antt =====
-- The manager of the providers (cmd/operion-source-manager/manager.go).
pub mod Moving
pub mod Updating
pub mod Starting
use operion.Base.{
  ℕ, suc, ◌+◌, String, Bool, true, false, not, ◌&&◌, ◌==◌, if◌then◌else◌, List, [], ◌∷◌, is_empty,
  any, filter, Dict, lookup, insert, delete, values, Option, none, some,
}
use operion.Models.Value.{Value}
use operion.Models.Workflow.{Workflow, WorkflowNode, is_trigger_node}
use operion.Store.{Result, ok, err, M, ◌>>=◌, ◌>>◌, pure, attempt, throw}
use operion.Store.Workflows.{get_all, save}
use operion.Registry.{
  Lifecycle, Provider, ProviderFactory, Registry, create_provider, get_available_providers,
}
use operion.Providers.{callback, named_source}

-- What the loop over the nodes has made so far: the nodes, whether one has changed, and how many.
pub record Updates : Type 0 where
  pub nodes : List WorkflowNode
  pub is_updated : Bool
  pub count : ℕ

abbrev pub keep_node : WorkflowNode → Updates → Updates
keep_node n u = record u { nodes = n ∷ u.nodes }

-- A node whose source is another one than the mapped one.
abbrev pub update_node : WorkflowNode → Option String → Updates → Updates
update_node n none u = keep_node n u
update_node n (some source) u = if named_source n == source then keep_node n u else record {
  nodes = record n { source_id = some source } ∷ u.nodes;
  is_updated = true;
  count = suc u.count;
}

abbrev pub update_if_trigger : Bool → WorkflowNode → Option String → Updates → Updates
update_if_trigger true n o u = update_node n o u
update_if_trigger false n o u = keep_node n u

-- The loop of `updateWorkflowTriggerNodes`, the nodes after the first one before it.
unfoldable pub update_trigger_nodes : Dict String → List WorkflowNode → Updates
update_trigger_nodes mapped [] = record { nodes = []; is_updated = false; count = 0 }
update_trigger_nodes mapped (n ∷ ns) =
    update_if_trigger (is_trigger_node n) n (lookup n.id mapped) (update_trigger_nodes mapped ns)

abbrev pub with_nodes : List WorkflowNode → Workflow → Workflow
with_nodes ns x = record x { nodes = ns }

abbrev pub save_if : Bool → Workflow → M (Unit {0}) → M (Unit {0})
save_if true x rest = save x >>= λ _. rest
save_if false x rest = rest

-- The loop of `updateTriggersWithSourceIDs` over the workflows.
unfoldable pub update_each : Dict String → List Workflow → M (Unit {0})
update_each mapped [] = pure tt
update_each mapped (x ∷ xs) =
    save_if (update_trigger_nodes mapped x.nodes).is_updated
      (with_nodes (update_trigger_nodes mapped x.nodes).nodes x) (update_each mapped xs)

-- `updateTriggersWithSourceIDs`.
unfoldable pub update_triggers_with_source_ids : Dict String → M (Unit {0})
update_triggers_with_source_ids mapped =
    if is_empty mapped then pure tt else (get_all >>= update_each mapped)

-- `executeProviderLifecycle`.
unfoldable pub execute_provider_lifecycle : Lifecycle → M (Unit {0})
execute_provider_lifecycle c = do
  c.initialize
  workflows ← get_all
  mapped ← c.configure workflows
  update_triggers_with_source_ids mapped
  c.prepare

abbrev pub lifecycle_of : Option Lifecycle → M (Unit {0})
lifecycle_of none = pure tt
lifecycle_of (some c) = execute_provider_lifecycle c

-- The running providers by their keys.
abbrev pub Running : Type 0
Running = Dict Provider

abbrev pub unless_failed : String → Running → Result (Unit {0}) → M Running
unless_failed id running (err e) = pure (delete id running)
unless_failed id running (ok _) = pure running

-- From the end of the lifecycle on.
abbrev pub run_provider : String → Provider → Running → Result (Unit {0}) → M Running
run_provider id p running (err e) = pure running
run_provider id p running (ok _) =
    attempt (p.start callback) >>= unless_failed id (insert id p running)

abbrev pub run_created : String → Running → Result Provider → M Running
run_created id running (err e) = pure running
run_created id running (ok p) = attempt (lifecycle_of p.lifecycle) >>= run_provider id p running

-- `startProvider`, with the one configuration that it makes, the empty one.
unfoldable pub start_provider : Registry → ProviderFactory → Running → M Running
start_provider r factory running = run_created factory.id running (create_provider r factory.id [])

-- The choice of `startProviders`: an empty filter lets every provider through.
unfoldable pub providers_to_start : List String → Registry → List ProviderFactory
providers_to_start names r =
    if is_empty names
    then get_available_providers r
    else filter (λ f. any (λ name. name == f.id) names) (get_available_providers r)

unfoldable pub start_each : Registry → List ProviderFactory → Running → M Running
start_each r [] running = pure running
start_each r (f ∷ fs) running = start_provider r f running >>= start_each r fs

-- `startProviders`, with the goroutines one after another.
unfoldable pub start_providers : List String → Registry → Running → M Running
start_providers names r running = start_each r (providers_to_start names r) running

unfoldable pub stop_each : List Provider → M (Unit {0})
stop_each [] = pure tt
stop_each (p ∷ ps) = do stopped ← attempt p.stop; stop_each ps

-- `stop`: every provider is asked to stop, whatever the others answer.
unfoldable pub stop_providers : Running → M Running
stop_providers running = do stop_each (values running); pure []
