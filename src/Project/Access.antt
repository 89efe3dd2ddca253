-- ===== src/Project/Access.antt =====
-- `Get`, `Access` and `grantedRole` of internal/service/project_service.go, `getProject` and
-- `getTask` of internal/service/task_service.go.
pub mod Laws
use boreas.Prelude.{String, Bool, true, false, Option, none, some, if◌then◌else◌}
use boreas.Prelude.Text.{is_empty, ◌<>◌}
use boreas.Core.Errors.{Err, Result, ok, err, ErrKind, is_not_found, err_not_found, wrap}
use boreas.Core.Names.{validate_project_slug, validate_task_name}
use boreas.Core.Roles.{ProjectRole, absent, viewer, owner, max, is_absent}
use boreas.Core.Model.{Uuid, User, Project, ProjectMember, ProjectAccess, Task, is_admin}
use boreas.Store
use boreas.App.{Env, App, query, lift, pure, fail, attempt, wrapping, ◌>>=◌, ◌>>◌}

-- What `GetMember` answered: the role and whether there is one; ErrNotFound is no error here.
abbrev membership : Result Err ProjectMember → Result Err (ProjectRole × Bool)
membership (ok m) = ok (m.role, true)
membership (err e) =
    if is_not_found e.kind then ok (absent, false) else err (wrap "get project member" e)

abbrev pub seen : Project → Uuid → ProjectRole → Bool → ProjectAccess
seen project user_id role all_tasks = record {
  project = project;
  user_id = user_id;
  role = role;
  all_tasks = all_tasks;
}

abbrev pub quoted : String → String → String
quoted what name = what <> " \"" <> name <> "\""

module _ (env : Env) where
  unfoldable pub get_project : String → App Err Project
  unfolding query
  get_project slug = do
    lift (validate_project_slug slug)
    wrapping (quoted "get project" slug) (query env (Store.Projects.get_by_slug slug))

  unfoldable pub get_task : String → String → App Err (Task × Project)
  unfolding get_project query
  get_task slug name = do
    lift (validate_task_name name)
    project ← get_project slug
    task ← wrapping (quoted "get task" name) (query env (Store.Tasks.get_by_name project.id name))
    pure (task, project)

  -- A path without a task gives viewer to whoever holds any grant in the project.
  unfoldable pub granted_role : Uuid → Uuid → String → App Err ProjectRole
  unfolding query
  granted_role project_id user_id task_name =
      if is_empty task_name
      then (do
        granted ←
            wrapping "check task grants"
              (query env (Store.Grants.any_in_project project_id user_id))
        pure (if granted then viewer else absent))
      else wrapping "get task grant" (query env (Store.Grants.role project_id user_id task_name))

  -- A caller who is no administrator, in a project that is found.
  unfoldable pub member_access : User → String → Project → App Err ProjectAccess
  unfolding granted_role query
  member_access actor task_name project = do
    answer ← attempt (query env (Store.Members.get_member project.id actor.id))
    found ← lift (membership answer)
    granted ← granted_role project.id actor.id task_name
    let role = max found.0 granted
    if is_absent role then fail err_not_found else pure (seen project actor.id role found.1)

  unfoldable pub access : User → String → String → App Err ProjectAccess
  unfolding get_project member_access
  access actor slug task_name = do
    project ← get_project slug
    if is_admin actor
        then pure (seen project actor.id owner true)
        else member_access actor task_name project
