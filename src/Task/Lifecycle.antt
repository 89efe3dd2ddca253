-- ===== src/Task/Lifecycle.antt =====
-- `Create`, `Start`, `Stop`, `Restart` and `Delete` of internal/service/task_service.go.
pub mod Starts
pub mod Laws
use boreas.Prelude.{
  String, Bool, true, false, not, ◌&&◌, ◌||◌, Option, none, some, List, [], ◌∷◌, if◌then◌else◌,
}
use boreas.Prelude.Text.{◌<>◌, is_empty, trim_space, or_text}
use boreas.Prelude.Int.{ℤ, pos, or_int}
use boreas.Prelude.Dict.{Dict}
use boreas.Core.Enums.{
  TaskStatus, creating, starting, stopped, in_progress, FormFactor, web, or_form_factor,
  validate_form_factor, task_created,
}
use boreas.Core.Errors.{Err, Result, ok, err, ErrKind, is_not_found, wrap}
use boreas.Core.Spec.{validate}
use boreas.Core.Model.{
  Uuid, Project, Task, ContainerSpec, ContainerState, spec, no_build, no_revision,
}
use boreas.Proxy.Registry.{set_routes, set_lock}
use boreas.Store
use boreas.App.{
  Env, App, Call, pull_image, create_container, recreate_container, stop_container,
  remove_container, inspect_container, exec, lift, call, pure, fail, attempt, wrapping, on_registry,
  notify, ◌>>=◌, ◌>>◌,
}
use boreas.Project.Access.{get_project, get_task, quoted}
use boreas.Project.Notices.{notification}
use boreas.Task.Reply.{
  Failure, no_row, on_fail, or_zero, fail_task, conflict_as, status_text, is_running,
  is_transitioning, credential, check_folders,
}
use boreas.Task.Ready.{begin, unregister_route}

pub record CreateTaskInput : Type 0 where
  pub name : String
  pub description : String
  pub note : String
  pub image : String
  pub port : ℤ
  pub form_factor : FormFactor
  pub labels : Dict
  pub env : Dict
  pub volumes : Dict

unfoldable pub spec_of_input : Project → CreateTaskInput → ContainerSpec
spec_of_input project input = record {
  project = project.slug;
  name = input.name;
  image = trim_space input.image;
  port = or_int input.port (pos 80);
  labels = input.labels;
  env = input.env;
  volumes = input.volumes;
}

-- The row that `Create` reserves.
unfoldable pub new_task : Project → CreateTaskInput → FormFactor → ContainerSpec → Task
new_task project input form_factor s = record {
  id = 0;
  project_id = project.id;
  name = input.name;
  description = input.description;
  note = input.note;
  image = s.image;
  status = creating;
  dev_status = in_progress;
  form_factor = form_factor;
  password_hash = "";
  port = s.port;
  container_id = "";
  container_ip = "";
  labels = s.labels;
  env = s.env;
  volumes = s.volumes;
  routes = [];
  build = no_build;
  revision = no_revision;
  pending_recreate = false;
  error = "";
}

abbrev pub is_stopped : TaskStatus → Bool
is_stopped stopped = true
is_stopped _ = false

-- The container is there and runs.
abbrev runs : Result Err ContainerState → Bool
runs (err e) = false
runs (ok state) = state.exists && is_running state.status

-- The error of a removal that finds no container is passed over.
abbrev unless_missing : Result Err (Unit {0}) → Result Err (Unit {0})
unless_missing (ok _) = ok tt
unless_missing (err e) = if is_not_found e.kind then ok tt else err e

module _ (env : Env) where
  -- The container of a reserved task: pulled, created, stored, started and waited for.
  unfoldable pub launch : Project → ContainerSpec → Task → App Failure Task
  unfolding credential begin fail_task exec
  launch project s task = do
    login ← on_fail (credential env project) (fail_task env task)
    on_fail (call (pull_image s.image login) env.pull)
        (λ e. fail_task env task (wrap "pull image" e))
    container_id ←
        on_fail (call (create_container s) env.create)
          (λ e. fail_task env task (wrap "create container" e))
    stored ←
        on_fail
          (exec env
            (Store.Tasks.update (record task { container_id = container_id; status = starting })))
          (λ e. do
            attempt (or_zero (call (remove_container container_id) env.remove))
            fail (no_row (wrap "persist created container" e)))
    begin env "start container" container_id stored project.slug

  unfoldable pub create : String → CreateTaskInput → App Failure Task
  unfolding get_project or_form_factor spec_of_input new_task check_folders notification launch exec
  create slug input = do
    project ← or_zero (get_project env slug)
    let form_factor =
        or_form_factor (or_form_factor input.form_factor project.default_form_factor) web
    or_zero (lift (validate_form_factor form_factor))
    let s = spec_of_input project input
    or_zero (lift (validate s))
    or_zero (check_folders env s)
    task ← or_zero (
        wrapping (quoted "reserve task" input.name) (λ w.
          exec env
            (Store.Tasks.create env.lower (env.fresh w.tick) (new_task project input form_factor s))
            w))
    notify (
        notification project input.name task_created "📋 Task Created"
          (or_text (trim_space input.description) s.image))
    launch project s task

  -- Start's container: a new one where a change waits for it, or where there is none.
  unfoldable pub ensure_container : Project → Task → App Failure Task
  unfolding spec fail_task
  ensure_container project task =
      if task.pending_recreate || is_empty task.container_id
      then (do
        new_id ←
            on_fail
              (call (recreate_container task.container_id (spec task project.slug)) env.recreate)
              (λ e. fail_task env task (wrap "recreate container" e))
        pure (record task { container_id = new_id; pending_recreate = false }))
      else pure task

  unfoldable pub start_stored : Project → Task → App Failure Task
  unfolding ensure_container begin
  start_stored project task = do
    ready ← ensure_container project task
    begin env "start container" ready.container_id ready project.slug

  unfoldable pub start_found : Project → Task → App Failure Task
  unfolding exec start_stored
  start_found project found = do
    task ← or_zero (
        wrapping "mark starting"
          (exec env (Store.Tasks.update (record found { status = starting; error = "" }))))
    start_stored project task

  unfoldable pub start : String → String → App Failure Task
  unfolding get_task start_found
  start slug name = do
    found ← or_zero (get_task env slug name)
    if is_running found.0.status || is_transitioning found.0.status
        then fail
            (no_row (conflict_as (quoted "task" name <> " is " <> status_text found.0.status)))
        else start_found found.1 found.0

  unfoldable pub stop_if_there : Task → App Failure (Unit {0})
  unfolding fail_task
  stop_if_there task =
      if is_empty task.container_id
      then pure tt
      else on_fail (call (stop_container task.container_id) env.stop)
          (λ e. fail_task env task (wrap "stop container" e))

  unfoldable pub store_stopped : Task → App Failure Task
  unfolding exec
  store_stopped task = or_zero (
      wrapping "persist stopped task" (
        exec env
          (Store.Tasks.update (record task { status = stopped; container_ip = ""; error = "" }))))

  unfoldable pub stop_found : String → Project → Task → App Failure Task
  unfolding stop_if_there unregister_route store_stopped
  stop_found name project task = do
    stop_if_there task
    unregister_route env project.slug name
    store_stopped task

  unfoldable pub stop : String → String → App Failure Task
  unfolding get_task stop_found
  stop slug name = do
    found ← or_zero (get_task env slug name)
    if is_stopped found.0.status
        then fail (no_row (conflict_as (quoted "task" name <> " is stopped")))
        else if is_transitioning found.0.status
        then fail (no_row (conflict_as (quoted "task" name <> " is transitioning")))
        else stop_found name found.1 found.0

  -- The second half of a restart, once the old route is gone.
  unfoldable pub recreate_and_begin : Project → Task → App Failure Task
  unfolding spec fail_task begin exec
  recreate_and_begin project task = do
    new_id ←
        on_fail (call (recreate_container task.container_id (spec task project.slug)) env.recreate)
          (λ e. fail_task env task (wrap "recreate container" e))
    stored ← or_zero (
        wrapping "mark restarting" (
          exec env (
            Store.Tasks.update (record task {
              container_id = new_id;
              pending_recreate = false;
              status = starting;
            }))))
    begin env "restart container" stored.container_id stored project.slug

  unfoldable pub restart_found : String → Project → Task → App Failure Task
  unfolding credential unregister_route recreate_and_begin
  restart_found name project task = do
    login ← or_zero (credential env project)
    or_zero (wrapping "pull image" (call (pull_image task.image login) env.pull))
    unregister_route env project.slug name
    recreate_and_begin project task

  unfoldable pub restart : String → String → App Failure Task
  unfolding get_task restart_found
  restart slug name = do
    found ← or_zero (get_task env slug name)
    if is_transitioning found.0.status
        then fail (no_row (conflict_as (quoted "task" name <> " is transitioning")))
        else restart_found name found.1 found.0

  -- Stops a container that runs, and removes it.
  unfoldable pub discard_container : String → App Err (Unit {0})
  discard_container container_id = do
    inspected ← attempt (call (inspect_container container_id) env.inspect)
    if runs inspected
        then wrapping "stop before delete" (call (stop_container container_id) env.stop)
        else pure tt
    answer ← attempt (call (remove_container container_id) env.remove)
    wrapping "remove container" (lift (unless_missing answer))

  unfoldable pub delete_row : Uuid → App Err (Unit {0})
  unfolding exec
  delete_row id = wrapping "delete task" (exec env (Store.Tasks.delete id))

  unfoldable pub delete : String → String → App Err (Unit {0})
  unfolding get_task unregister_route set_routes set_lock discard_container delete_row
  delete slug name = do
    found ← get_task env slug name
    unregister_route env found.1.slug name
    on_registry (set_routes env.unicode_lower env.parse_url found.1.slug name [])
    on_registry (set_lock env.unicode_lower found.1.slug name "")
    if is_empty found.0.container_id then pure tt else discard_container found.0.container_id
    delete_row found.0.id
