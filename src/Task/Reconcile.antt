-- ===== src/Task/Reconcile.antt =====
-- `Reconcile` and `SystemStats` of internal/service/task_service.go.
pub mod Laws
use boreas.Prelude.{
  ℕ, ◌+◌, String, Bool, true, false, not, ◌&&◌, ◌||◌, Option, none, some, List, [], ◌∷◌, ◌++◌, find,
  length, ◌==◌, if◌then◌else◌,
}
use boreas.Prelude.Text.{◌<>◌, is_empty}
use boreas.Core.Enums.{TaskStatus, running, stopped, error, unknown}
use boreas.Core.Errors.{Err, Result, ok, err, wrap, ErrKind, other}
use boreas.Core.Model.{Project, Task, ContainerState}
use boreas.Proxy.Registry.{set_routes, set_lock}
use boreas.Store
use boreas.App.{
  Env, App, inspect_container, query, exec, lift, call, pure, attempt, wrapping, on_registry, ◌>>=◌,
  ◌>>◌,
}
use boreas.Task.Reply.{is_running}
use boreas.Task.Ready.{register_route, unregister_route}

-- The slug of a project id; slugs are unique per id.
abbrev pub project_of : List Project → Task → Option Project
project_of projects task = find (λ (p : Project). p.id == task.project_id) projects

-- The row as the runtime sees its container.
unfoldable pub observed : Result Err ContainerState → Task → Task
observed (err e) task = record task { status = unknown; container_ip = ""; error = e.text }
observed (ok state) task =
    if state.exists
    then record task { status = state.status; container_ip = state.ip; error = state.error }
    else record task { status = unknown; container_ip = "" }

-- Whether the container can be routed to.
abbrev pub is_reachable : Result Err ContainerState → Bool
is_reachable (err e) = false
is_reachable (ok state) = state.exists && is_running state.status && not (is_empty state.ip)

abbrev pub ip_of : Result Err ContainerState → String
ip_of (err e) = ""
ip_of (ok state) = state.ip

-- The errors of the steps, joined: a failed step does not stop the others.
abbrev pub noted : {A : Type 0} → Result Err A → List Err → List Err
noted (ok _) joined = joined
noted (err e) joined = joined ++ e ∷ []

module _ (env : Env) where
  -- One task, whose project is found.
  unfoldable pub reconcile_task : String → Task → List Err → App Err (List Err)
  unfolding observed register_route unregister_route set_routes set_lock exec
  reconcile_task slug task joined = do
    on_registry (set_routes env.unicode_lower env.parse_url slug task.name task.routes)
    on_registry (set_lock env.unicode_lower slug task.name task.password_hash)
    inspected ← attempt (call (inspect_container task.container_id) env.inspect)
    routed ←
        (if is_reachable inspected
          then attempt (
              wrapping ("route " <> slug <> "/" <> task.name)
                (register_route env slug task.name (ip_of inspected) task.port))
          else attempt (unregister_route env slug task.name))
    stored ← attempt (
        wrapping ("update " <> task.name) (exec env (Store.Tasks.update (observed inspected task))))
    pure (noted stored (noted routed joined))

  unfoldable pub reconcile_all : List Project → List Task → List Err → App Err (List Err)
  unfolding reconcile_task
  reconcile_all projects [] joined = pure joined
  reconcile_all projects (task ∷ tasks) joined = elim (project_of projects task) [
    | none ↦ reconcile_all projects tasks (
        joined
        ++ record { kind = other; text = "task " <> task.name <> " references unknown project" }
          ∷ [])
    | some project ↦ do
      joined' ← reconcile_task project.slug task joined
      reconcile_all projects tasks joined'
  ]

  -- The joined errors; nil is the empty list.
  unfoldable pub reconcile : App Err (List Err)
  unfolding query reconcile_all
  reconcile = do
    projects ← wrapping "list projects for reconcile" (query env Store.Projects.list)
    tasks ← wrapping "list for reconcile" (query env Store.Tasks.list_all)
    reconcile_all projects tasks []
