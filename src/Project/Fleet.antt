-- ===== src/Project/Fleet.antt =====
-- `List`, `GrantedRoles`, `Fleet` and `Directory` of internal/service/project_service.go: all that a
-- user reaches, at once. The last deploys, read before the tasks, are left out of the rows; reading
-- them may fail.
pub mod Rows
pub mod Laws
use boreas.Prelude.{
  ℕ, Bool, true, false, not, ◌&&◌, ◌||◌, Option, none, some, List, [], ◌∷◌, find, map, keep,
  is_some, ◌==◌, if◌then◌else◌,
}
use boreas.Core.Errors.{Err, Result, ok, err}
use boreas.Core.Roles.{ProjectRole, absent, owner, max}
use boreas.Core.Model.{Uuid, User, Project, ProjectAccess, Task, TaskGrant, is_admin}
use boreas.Store
use boreas.Store.Db.{Db}
use boreas.Store.Grants.{role_or_absent}
use boreas.App.{Env, App, query, pure, wrapping, ◌>>=◌, ◌>>◌}
use boreas.Project.Access.{seen}

pub record FleetTask : Type 0 where
  pub task : Task
  pub role : ProjectRole

-- `reach[task.ProjectID]`: the ids of projects are a key, so one row has it.
abbrev pub reach : List ProjectAccess → Uuid → Option ProjectAccess
reach accesses project_id = find (λ a. a.project.id == project_id) accesses

-- `grants[task.ID]`
abbrev pub grant_of : List TaskGrant → Uuid → Option TaskGrant
grant_of grants task_id = find (λ g. g.task_id == task_id) grants

-- The row of a task, if the user reaches it.
abbrev pub fleet_row : Option ProjectAccess → Option TaskGrant → Task → Option FleetTask
fleet_row none granted task = none
fleet_row (some acc) granted task =
    if not acc.all_tasks && not (is_some granted)
    then none
    else some (record { task = task; role = max acc.role (role_or_absent granted) })

unfoldable pub fleet_rows : List ProjectAccess → List TaskGrant → List Task → List FleetTask
fleet_rows accesses grants [] = []
fleet_rows accesses grants (t ∷ ts) =
    let rest = fleet_rows accesses grants ts in
    elim (fleet_row (reach accesses t.project_id) (grant_of grants t.id) t) [
      | none ↦ rest
      | some row ↦ row ∷ rest
    ]

-- The tasks of a project, as the map of `Fleet` holds them.
abbrev pub tasks_in : Uuid → List FleetTask → List FleetTask
tasks_in project_id rows = keep (λ row. row.task.project_id == project_id) rows

abbrev owned : Uuid → Project → ProjectAccess
owned user_id p = seen p user_id owner true

module _ (env : Env) where
  unfoldable pub list : User → App Err (List ProjectAccess)
  unfolding query
  list actor =
      if is_admin actor
      then (do
        projects ← wrapping "list projects" (query env Store.Projects.list)
        pure (map (owned actor.id) projects))
      else wrapping "list projects" (query env (Store.Projects.list_for_user actor.id))

  unfoldable pub granted_roles : Uuid → App Err (List TaskGrant)
  unfolding query
  granted_roles user_id = wrapping "list user grants" (query env (Store.Grants.for_user user_id))

  unfoldable pub tasks_with_deploys : App Err (List Task)
  unfolding query
  tasks_with_deploys = do
    wrapping "list last deploys" (query env (λ _. ok (tt {0})))
    wrapping "list tasks" (query env Store.Tasks.list_all)

  unfoldable pub fleet : User → App Err (List ProjectAccess × List FleetTask)
  unfolding list granted_roles tasks_with_deploys fleet_rows
  fleet actor = do
    accesses ← list actor
    grants ← granted_roles actor.id
    tasks ← tasks_with_deploys
    pure (accesses, fleet_rows accesses grants tasks)

  unfoldable pub directory : App Err (List Project × List Task)
  unfolding query tasks_with_deploys
  directory = do
    projects ← wrapping "list projects" (query env Store.Projects.list)
    tasks ← tasks_with_deploys
    pure (projects, tasks)
