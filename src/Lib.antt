-- ===== src/Lib.antt =====
-- Operion, a workflow automation platform: workflows are graphs of nodes that are joined by
-- connections between their ports.
--
-- Providers (pkg/providers) turn the world outside into source events: the scheduler polls for due
-- schedules, the webhook provider has a server, and the Kafka provider consumes messages, with one
-- consumer for all sources that have the same connection. The source manager
-- (cmd/operion-source-manager) starts the providers: a provider is initialized, configured with all
-- workflows, which gives the sources of their trigger nodes, and the manager writes these into the
-- workflows before it starts the provider with a callback that publishes its events. The activator
-- (cmd/operion-activator) looks for the enabled trigger nodes of published workflows that an event
-- matches, saves an execution context for each, and publishes an activation of the node. A worker
-- (cmd/operion-worker) takes an activation, adds its input to the inputs that the node waits for and,
-- when the node is ready, runs it, stores its results in the context, publishes activations of the
-- nodes that are connected to its outputs, and then its completion. Workflows have versions: of each
-- group one may be published (pkg/workflow, pkg/persistence/file).
--
-- The files and the code:
-- Models: Value (Go's `any`), Number, Workflow, Port, Execution (pkg/models), Event (pkg/events) and
--   Source (the models of the providers). A record
--   has the fields of the struct that operations read; a field with JSON tags keeps its name, but for
--   `Data` of a node result, which is `fields`.
-- Store: the world that the services share, with the operations that may fail; Workflows and Versions
--   (pkg/persistence/file/workflow.go), Nodes (file.go), Contexts (execution_context.go), Inputs
--   (input_coordination.go) and Path (the calls of path/filepath and strings). A method of a
--   repository is the operation of the same name in lower case.
-- Registry (pkg/registry/registry.go, pkg/protocol) and Template (pkg/template/template.go).
-- Nodes: Merge, Switch, Conditional, Transform, Log and HttpRequest (pkg/nodes/*/node.go), over Common,
--   and Trigger (pkg/nodes/trigger).
-- Worker: Coordinator (input_coordinator.go), Manager and Handler (worker_manager.go). The handler is
--   cut at each result that it tests: `after_node`, `after_add_input` and so on are the code from there.
-- Activator (cmd/operion-activator/activator.go) and Publishing (pkg/workflow/publishing.go and
--   repository.go).
-- Providers: publishing an event (cmd/operion-source-manager/manager.go, `createSourceEventCallback`,
--   and pkg/eventbus/kafka_source_event_bus.go) and the loop over trigger nodes that each provider's
--   `Configure` has; Manager (manager.go); Scheduler (pkg/providers/scheduler), with Polling and
--   Configuring for provider.go; Webhook (pkg/providers/webhook), with Server for server.go and
--   Configuring for provider.go; Kafka (pkg/providers/kafka), with Consumers for provider.go. A
--   provider's records are in the world twice, in the memory of its
--   persistence and in the file, as of the last write that succeeded.
-- Postgres (pkg/persistence/postgresql): the tables of migration.go are Models/Database; Workflows
--   reads, Saving and Versions write (workflow.go); Nodes, Connections, Contexts and Inputs are the
--   other repositories, Stores those of the providers (pkg/providers/*/persistence/postgres.go), and
--   Migrations is pkg/persistence/sqlbase/migration.go, where a map is a list in the order of the
--   loop. A statement is a function on the tables; a transaction is the code between `begin` and
--   `commit`, with what an error in it leads to.
-- Web (pkg/web): the handlers, over the workflow repository.
-- Commands (cmd/operion-source-manager/validate.go and cmd/operion-activator/validate.go): the
--   commands that validate workflows; validate.Struct is a parameter.
-- Services: the activator and the workers at work on one world.
-- Tests: runs on small inputs.
--
-- An operation is a function from the world to an outcome, `done` with a result or `fail` with an
-- error, and the world that it leaves; `attempt` gives the code an error as a value. Each operation of
-- the file system and of the event bus consults the list of faults, so a theorem about any world covers
-- every pattern of failures. A folder holds what was last written in full to each file: a write that
-- fails may damage its file, and in the model its later reads are then among those that fail. An
-- identifier is taken to have no slash where it names a file, but in the repositories of execution
-- contexts and input states, which check it. A column keeps of a time what the function `keeps` of the
-- database gives. Identifiers come from parameters, functions from a counter.
--
-- A request of the HTTP request node is answered by a function of its number, so that a theorem about
-- any client covers every sequence of answers; the node's retry loop is a recursion on the number of
-- attempts that are left, and a theorem bounds the requests by it.
--
-- Bounds: times are numbers of nanoseconds, and 0 stands for Go's zero time. Numbers in a value are bit
-- patterns of their types; the order of float64 values and their conversion to int are written out on
-- the patterns. `format_from` has fuel for 19 digits, as many as an int64 of seconds can
-- have. All other loops are recursions on lists or texts.
--
-- Parameters: text/template with the functions that the package adds, the decoder of encoding/json,
-- strconv.ParseFloat and the verb %v of fmt (`Engine`), the HTTP client with the canonical form of
-- header names and strings.ToUpper (`Client`), the cron library (`Cron`), the decoder, the JSON schema
-- library and the layout RFC 3339 of times for the webhook server and the Kafka provider (`Library` of
-- each), json.Marshal and the SHA-256 digest (`Digests`), the layouts of times
-- for the scheduler, the order in which the database gives rows with one key (`Sorting`),
-- strconv.Atoi, time.LoadLocation, and the generators of identifiers.
--
-- Not modelled: the Kafka event bus (messages for another system), the web framework, the Kafka
-- client's sessions, the tickers, goroutines and HTTP listeners that call the modelled handlers, the
-- clean-up of expired input states over files, and the flags and signals of the commands. The
-- providers that the manager starts at once run one after another. The messages of errors keep their
-- fixed part; logging is left out. One request runs at a time and sees one time, `now`.
mod Base
pub mod Models
pub mod Store
pub mod Registry
pub mod Template
pub mod Nodes
pub mod Providers
pub mod Worker
pub mod Publishing
pub mod Commands
pub mod Services
pub mod Activator
pub mod Postgres
pub mod Web
pub mod Tests
