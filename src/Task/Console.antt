-- ===== src/Task/Console.antt =====
-- `CheckRoute`, the guards of `Logs`, the sources of `Metrics` and `SystemStats` of
-- internal/service/task_service.go. What Docker and the proxy answer to them is an argument.
use boreas.Prelude.{
  ℕ, String, Bool, true, false, not, ◌&&◌, none, some, List, [], ◌∷◌, count, keep, length,
  if◌then◌else◌,
}
use boreas.Prelude.Text.{is_empty}
use boreas.Prelude.Int.{ℤ, pos, negsuc}
use boreas.Core.Enums.{TaskStatus, stopped, error}
use boreas.Core.Errors.{Err, Result, invalid, require, err_conflict, wrap}
use boreas.Core.Model.{Route, Task, ProjectAccess}
use boreas.Store
use boreas.App.{Env, App, query, lift, ask_result, pure, fail, wrapping, ◌>>=◌, ◌>>◌}
use boreas.Project.Access.{get_task}
use boreas.Task.Reply.{is_running}

pub record SystemStats : Type 0 where
  pub total_tasks : ℕ
  pub running_tasks : ℕ
  pub stopped_tasks : ℕ
  pub total_projects : ℕ
  pub total_memory_bytes : ℕ

abbrev is_stopped : TaskStatus → Bool
is_stopped stopped = true
is_stopped error = true
is_stopped _ = false

abbrev is_negative : ℤ → Bool
is_negative (pos n) = false
is_negative (negsuc n) = true

module _ (env : Env) where
  -- `CheckRoute`: an address is tried as it would be stored.
  unfoldable pub check_route : {A : Type 0} → (Route → A) → String → String → Route → App Err A
  unfolding get_task
  check_route check slug name route = do
    get_task env slug name
    elim (env.clean_route_url route.url) [
      | none ↦ fail (invalid "address must be http(s)://host[:port][/path]")
      | some target ↦ pure (check (record route { url = target }))
    ]

  abbrev with_container : Task → App Err Task
  with_container task =
      if is_empty task.container_id
      then fail (wrap "task has no container" err_conflict)
      else pure task

  -- `Logs`
  unfoldable pub logs : {A : Type 0} → (String → ℕ → Result Err A) → String → String → ℤ → App Err A
  unfolding get_task
  logs read slug name tail = do
    lift (require (not (is_negative tail)) (invalid "log tail must not be negative"))
    found ← get_task env slug name
    task ← with_container found.0
    wrapping "read logs" (ask_result (read task.container_id))

  -- The tasks whose samples `Metrics` streams: the named one, or those that run.
  unfoldable pub sources : ProjectAccess → String → App Err (List Task)
  unfolding get_task query
  sources acc name =
      if is_empty name
      then (do
        tasks ←
            wrapping "list tasks for metrics"
              (query env (Store.Tasks.list acc.project.id acc.user_id acc.all_tasks))
        pure (keep (λ t. not (is_empty t.container_id) && is_running t.status) tasks))
      else (do
        found ← get_task env acc.project.slug name
        task ← with_container found.0
        pure (task ∷ []))

  unfoldable pub system_stats : (ℕ → Result Err ℕ) → App Err SystemStats
  unfolding query
  system_stats total_memory = do
    tasks ← wrapping "list for stats" (query env Store.Tasks.list_all)
    projects ← wrapping "count projects" (query env Store.Projects.count)
    memory ← wrapping "runtime stats" (ask_result total_memory)
    pure (record {
      total_tasks = length tasks;
      running_tasks = count (λ t. is_running t.status) tasks;
      stopped_tasks = count (λ t. is_stopped t.status) tasks;
      total_projects = projects;
      total_memory_bytes = memory;
    })
