-- ===== src/Task/Update.antt =====
-- `UpdateTaskInput`, `update`, `Update`, `passwordHash` and `Deploy` of
-- internal/service/task_service.go.
pub mod Deploy
pub mod Laws
use Prim.Native.String.{len}
use text.Mathlib.Text.{◌==◌ as text_eq}
use boreas.Prelude.{
  ℕ, String, Bool, true, false, not, ◌&&◌, ◌||◌, Option, none, some, List, [], ◌∷◌, ltb, ◌==◌,
  if◌then◌else◌, or_else,
}
use boreas.Prelude.Text.{◌<>◌, is_empty, trim_space, or_text}
use boreas.Prelude.Int.{ℤ, int_eq}
use boreas.Prelude.Dict.{Dict, dict_eq}
use boreas.Core.Enums.{
  TaskStatus, stopped, DevStatus, in_progress, blocked, ready, dev_text, validate_dev_status,
  FormFactor, form_factor_text, validate_form_factor, status_changed,
}
use boreas.Core.Errors.{Err, Result, ok, err, Check, invalid, wrap}
use boreas.Core.Spec.{validate}
use boreas.Core.Routes.{clean_routes, routes_eq}
use boreas.Core.Model.{Project, Task, Route, Revision, ContainerSpec, spec}
use boreas.Proxy.Registry.{set_routes, set_lock}
use boreas.Store
use boreas.App.{
  Env, World, App, pull_image, recreate_container, stop_container, exec, lift, call, ask_result,
  pure, fail, attempt, wrapping, on_registry, notify, ◌>>=◌, ◌>>◌,
}
use boreas.Project.Access.{get_task}
use boreas.Project.Notices.{notification}
use boreas.Task.Reply.{Failure, on_fail, or_zero, fail_task, is_running, credential, check_folders}
use boreas.Task.Ready.{begin, unregister_route}

-- `none` is a nil pointer: the field is not sent.
pub record UpdateTaskInput : Type 0 where
  pub description : Option String
  pub note : Option String
  pub dev_status : Option DevStatus
  pub form_factor : Option FormFactor
  pub password : Option String
  pub image : Option String
  pub port : Option ℤ
  pub labels : Option Dict
  pub env : Option Dict
  pub volumes : Option Dict
  pub routes : Option (List Route)
  pub revision : Revision

abbrev trimmed : Option String → Option String
trimmed none = none
trimmed (some s) = some (trim_space s)

-- The container that the task is to have.
unfoldable pub wanted : UpdateTaskInput → Task → Project → ContainerSpec
unfolding spec
wanted input task project = record {
  project = project.slug;
  name = task.name;
  image = or_else (trimmed input.image) task.image;
  port = or_else input.port task.port;
  labels = or_else input.labels task.labels;
  env = or_else input.env task.env;
  volumes = or_else input.volumes task.volumes;
}

abbrev pub check_if {ℓ} : {A : Type ℓ} → (A → Check) → Option A → Check
check_if f none = ok tt
check_if f (some a) = f a

-- Whether the sent text, if any, differs from the one stored.
abbrev pub sent_other : Option String → String → Bool
sent_other none old = false
sent_other (some s) old = not (text_eq s old)

abbrev text_of {ℓ} : {A : Type ℓ} → (A → String) → Option A → Option String
text_of f none = none
text_of f (some a) = some (f a)

unfoldable pub metadata_changed : UpdateTaskInput → Task → List Route → String → Bool
unfolding routes_eq
metadata_changed input task routes hash =
    sent_other input.description task.description
    || sent_other input.note task.note
    || sent_other (text_of dev_text input.dev_status) (dev_text task.dev_status)
    || sent_other (text_of form_factor_text input.form_factor) (form_factor_text task.form_factor)
    || not (text_eq hash task.password_hash)
    || not (routes_eq routes task.routes)

unfoldable pub container_changed : Bool → ContainerSpec → Task → Bool
unfolding dict_eq
container_changed recreate s task =
    (recreate && task.pending_recreate)
    || not (text_eq s.image task.image)
    || not (int_eq s.port task.port)
    || not (dict_eq s.labels task.labels)
    || not (dict_eq s.env task.env)
    || not (dict_eq s.volumes task.volumes)

-- The sent metadata in the row; a value equal to the stored one leaves it as it is.
unfoldable pub edited : UpdateTaskInput → Task → List Route → String → Task
edited input task routes hash = record task {
  routes = routes;
  password_hash = hash;
  description = or_else input.description task.description;
  note = or_else input.note task.note;
  dev_status = or_else input.dev_status task.dev_status;
  form_factor = or_else input.form_factor task.form_factor;
}

-- The new container in the row, which waits for the recreate.
unfoldable pub reconfigured : ContainerSpec → Revision → Task → Task
reconfigured s revision task = record task {
  revision = if text_eq s.image task.image then task.revision else revision;
  image = s.image;
  port = s.port;
  labels = s.labels;
  env = s.env;
  volumes = s.volumes;
  pending_recreate = true;
  status = stopped;
  container_ip = "";
  error = "";
}

-- `devLabel`
abbrev pub dev_label : DevStatus → String
dev_label in_progress = "In Progress"
dev_label blocked = "Blocked"
dev_label ready = "Ready"
dev_label (DevStatus.unnamed s) = s

abbrev pub min_password_length : ℕ
min_password_length = 8

module _ (env : Env) where
  unfoldable pub password_hash : String → App Err String
  password_hash password =
      if is_empty password
      then pure ""
      else if ltb (len password) min_password_length || ltb 72 (len password)
      then fail (invalid "password must be 8 to 72 characters")
      else ask_result (λ n. env.hash_password n password)

  unfoldable pub hash_if : Option String → String → App Err String
  unfolding password_hash
  hash_if none old = pure old
  hash_if (some password) old = password_hash password

  unfoldable pub routes_if : Option (List Route) → List Route → Result Err (List Route)
  unfolding clean_routes
  routes_if none old = ok old
  routes_if (some sent) old = clean_routes env.clean_route_url sent

  unfoldable pub folders_if : Option Dict → ContainerSpec → App Err (Unit {0})
  unfolding check_folders
  folders_if none s = pure tt
  folders_if (some _) s = check_folders env s

  -- The checks of a request, with the routes and the password hash that it leaves.
  unfoldable pub checked : UpdateTaskInput → Task → ContainerSpec → App Err (List Route × String)
  unfolding folders_if routes_if hash_if
  checked input task s = do
    folders_if input.volumes s
    lift (validate s)
    lift (check_if validate_dev_status input.dev_status)
    lift (check_if validate_form_factor input.form_factor)
    routes ← lift (routes_if input.routes task.routes)
    hash ← hash_if input.password task.password_hash
    pure (routes, hash)

  -- A new image is pulled while the old container still runs.
  unfoldable pub pull_if : Bool → Project → String → App Err (Unit {0})
  unfolding credential
  pull_if false project image = pure tt
  pull_if true project image = do
    login ← credential env project
    wrapping "pull image" (call (pull_image image login) env.pull)

  unfoldable pub stop_if : Bool → Project → Task → App Failure (Unit {0})
  unfolding fail_task unregister_route
  stop_if false project task = pure tt
  stop_if true project task = do
    on_fail (call (stop_container task.container_id) env.stop)
        (λ e. fail_task env task (wrap "stop for update" e))
    unregister_route env project.slug task.name

  -- The recreate of a row that waits for it, and the start if the old container ran.
  unfoldable pub recreate_now : Project → Bool → Task → App Failure Task
  unfolding fail_task begin exec spec
  recreate_now project was_running task = do
    new_id ←
        on_fail (call (recreate_container task.container_id (spec task project.slug)) env.recreate)
          (λ e. fail_task env task (wrap "apply update" e))
    let fresh = record task { container_id = new_id; pending_recreate = false }
    if was_running
        then begin env "start recreated container" new_id fresh project.slug
        else or_zero (wrapping "persist recreated container" (exec env (Store.Tasks.update fresh)))

  unfoldable pub change_container :
      Project → ContainerSpec → Revision → Bool → Task → App Failure Task
  unfolding pull_if stop_if recreate_now exec reconfigured
  change_container project s revision recreate task = do
    or_zero (pull_if (not (text_eq s.image task.image) && recreate) project s.image)
    stop_if (is_running task.status) project task
    stored ←
        or_zero
          (wrapping "persist task" (exec env (Store.Tasks.update (reconfigured s revision task))))
    if recreate then recreate_now project (is_running task.status) stored else pure stored

  -- What `update` does once the request is checked.
  unfoldable pub apply_update :
      Task → Project → UpdateTaskInput → Bool → List Route → String → App Failure Task
  unfolding metadata_changed container_changed edited change_container exec
  apply_update task project input recreate routes hash =
      let s = wanted input task project in
      let new = edited input task routes hash in
      if container_changed recreate s task
      then change_container project s input.revision recreate new
      else if metadata_changed input task routes hash
      then or_zero (wrapping "persist task" (exec env (Store.Tasks.update new)))
      else pure task

  unfoldable pub update_stored : Task → Project → UpdateTaskInput → Bool → App Failure Task
  unfolding checked apply_update wanted
  update_stored task project input recreate = do
    found ← or_zero (checked input task (wanted input task project))
    apply_update task project input recreate found.0 found.1

  -- What `Update` tells the registry of a row that was saved, after a failure too.
  unfoldable pub publish : Project → String → Task → Task → App Failure (Unit {0})
  unfolding routes_eq set_routes set_lock
  publish project name old new = do
    if routes_eq new.routes old.routes
        then pure tt
        else on_registry (set_routes env.unicode_lower env.parse_url project.slug name new.routes)
    if text_eq new.password_hash old.password_hash
        then pure tt
        else on_registry (set_lock env.unicode_lower project.slug name new.password_hash)

  unfoldable pub publish_if : Project → String → Task → Option Task → App Failure (Unit {0})
  unfolding publish
  publish_if project name old none = pure tt
  publish_if project name old (some new) =
      if new.id == 0 then pure tt else publish project name old new

  unfoldable pub tell_status : Project → String → DevStatus → DevStatus → App Failure (Unit {0})
  unfolding notification
  tell_status project name old new =
      if text_eq (dev_text new) (dev_text old)
      then pure tt
      else notify (
          notification project name status_changed "🔄 Status Changed"
            (dev_label old <> " ➔ " <> dev_label new))

  unfoldable pub finish_update : Project → String → Task → Result Failure Task → App Failure Task
  unfolding publish_if tell_status
  finish_update project name old (ok new) = do
    publish_if project name old (some new)
    tell_status project name old.dev_status new.dev_status
    pure new
  finish_update project name old (err f) = do publish_if project name old f.row; fail f

  unfoldable pub update : String → String → UpdateTaskInput → Bool → App Failure Task
  unfolding get_task update_stored finish_update
  update slug name input recreate = do
    found ← or_zero (get_task env slug name)
    answer ← attempt (update_stored found.0 found.1 input recreate)
    finish_update found.1 name found.0 answer
