-- ===== src/Web.antt =====
-- The handlers of the web API (pkg/web/handlers.go and errors.go).
--
-- A response is its status with what its body is made of; the web framework encodes it.
use operion.Base.{ℕ, String, Bool, true, false, ◌&&◌, ◌==◌, if◌then◌else◌, List}
use operion.Models.Workflow.{Workflow}
use operion.Models.Event.{workflow_not_found}
use operion.Registry.{Registry, registry_is_healthy}
use operion.Store.{M, Result, ok, err, ◌>>=◌, pure, attempt}
use operion.Publishing.{fetch_all, fetch_by_id}

pub data Body : Type 0 where
  problem : String → Body
  one_workflow : Workflow → Body
  all_workflows : List Workflow → Body
  -- The checks of the registry and of the repository.
  health : Bool → Bool → Body

pub record Response : Type 0 where
  pub status : ℕ
  pub body : Body

-- `badRequest`, `notFound` and `internalError`, with the type of the problem.
unfoldable pub bad_request : Response
bad_request = record { status = 400; body = problem "validation_error" }

unfoldable pub not_found : Response
not_found = record { status = 404; body = problem "not_found" }

unfoldable pub internal_error : Response
internal_error = record { status = 500; body = problem "internal_error" }

abbrev workflows_response : Result (List Workflow) → Response
workflows_response (err e) = internal_error
workflows_response (ok xs) = record { status = 200; body = all_workflows xs }

-- `GetWorkflows`.
unfoldable pub get_workflows : M Response
get_workflows = do xs ← attempt fetch_all; pure (workflows_response xs)

abbrev workflow_response : Result Workflow → Response
workflow_response (err (workflow_not_found id)) = not_found
workflow_response (err e) = internal_error
workflow_response (ok x) = record { status = 200; body = one_workflow x }

abbrev fetched : Bool → String → M Response
fetched true id = pure bad_request
fetched false id = do x ← attempt (fetch_by_id id); pure (workflow_response x)

-- `GetWorkflow`, with the parameter `id` of the path.
unfoldable pub get_workflow : String → M Response
get_workflow id = fetched (id == "") id

-- `HealthCheck`, with the result of the persistence layer's check.
unfoldable pub health_check : Registry → Bool → Response
health_check r persistence_is_healthy = record {
  status = if registry_is_healthy r && persistence_is_healthy then 200 else 500;
  body = health (registry_is_healthy r) persistence_is_healthy;
}
