-- ===== src/Project/Grants.antt =====
-- The grants of internal/service/project_service.go: `ListGrants`, `Grant`, `Revoke`,
-- `SetAssignees` and `tellAssignee`. A Go map used as a set is a list with `contains`.
pub mod Loops
pub mod Laws
use boreas.Prelude.{
  ℕ, String, Bool, true, false, not, ◌&&◌, ◌||◌, Option, none, some, List, [], ◌∷◌, ◌++◌, map, any,
  keep, find, ltb, leb, ◌==◌, if◌then◌else◌,
}
use boreas.Prelude.Text.{◌<>◌}
use boreas.Core.Enums.{task_assigned}
use boreas.Core.Errors.{
  Err, Result, ok, err, ErrKind, invalid, require, err_forbidden, is_not_found, wrap,
}
use boreas.Core.Roles.{ProjectRole, rank, absent, member, owner, is_owner, is_absent, role_text}
use boreas.Core.Model.{Uuid, Project, ProjectMember, ProjectAccess, Task, TaskGrant, Notification}
use boreas.Store
use boreas.App.{
  Env, App, query, exec, lift, pure, fail, attempt, wrapping, for_each, notify, ◌>>=◌, ◌>>◌,
}
use boreas.Project.Access.{get_task}
use boreas.Project.Notices.{notification}

abbrev pub contains : Uuid → List Uuid → Bool
contains id ids = any (λ i. i == id) ids

-- The ids to grant: those that have no grant yet, each once.
unfoldable pub added_ids : List Uuid → List Uuid → List Uuid → List Uuid
added_ids had seen [] = []
added_ids had seen (id ∷ ids) =
    let rest = added_ids had (id ∷ seen) ids in
    if not (contains id seen) && not (contains id had) then id ∷ rest else rest

-- The ids to revoke: those that have a grant and are not listed.
unfoldable pub removed_ids : List Uuid → List TaskGrant → List Uuid
removed_ids ids [] = []
removed_ids ids (g ∷ current) =
    let rest = removed_ids ids current in if contains g.user_id ids then rest else g.user_id ∷ rest

-- `roles[id]`, the zero role for who is no member.
unfoldable pub role_of : List ProjectMember → Uuid → ProjectRole
role_of members id = elim (find (λ (m : ProjectMember). m.user_id == id) members) [
  | none ↦ absent
  | some m ↦ m.role
]

-- What `SetAssignees` demands of a caller below owner.
unfoldable pub may_assign : List ProjectMember → Uuid → List Uuid → Bool
unfolding role_of
may_assign members caller changed =
    leb (rank member) (rank (role_of members caller))
    && not (any (λ id. is_absent (role_of members id)) changed)

-- The error of a revoke that finds no row is passed over.
abbrev ignore_not_found : Result Err (Unit {0}) → Result Err (Unit {0})
ignore_not_found (ok _) = ok tt
ignore_not_found (err e) = if is_not_found e.kind then ok tt else err e

abbrev pub member_grant : Uuid → Uuid → TaskGrant
member_grant task_id user_id = record { task_id = task_id; user_id = user_id; role = member }

module _ (env : Env) where
  unfoldable pub tell_assignee : Project → String → Uuid → ProjectRole → App Err (Unit {0})
  unfolding notification role_text
  tell_assignee project task user_id role =
      if env.notifies
      then notify
          (record (notification project task task_assigned "👤 Task Assigned"
            ("assigned to you (" <> role_text role <> ")")) { user_id = some user_id })
      else pure tt

  unfoldable pub list_grants : String → String → App Err (List TaskGrant)
  unfolding get_task query
  list_grants slug task_name = do
    found ← get_task env slug task_name
    wrapping "list task grants" (query env (Store.Grants.list_for_task found.0.id))

  unfoldable pub grant : String → String → Uuid → ProjectRole → App Err (Unit {0})
  unfolding exec tell_assignee
  grant slug task_name user_id role = do
    lift (
        require (leb 1 (rank role) && leb (rank role) (rank member))
          (invalid "role must be viewer, operator, or member"))
    found ← get_task env slug task_name
    wrapping "grant task" (
        exec env
          (Store.Grants.grant (record { task_id = found.0.id; user_id = user_id; role = role })))
    tell_assignee found.1 task_name user_id role

  unfoldable pub revoke : String → String → Uuid → App Err (Unit {0})
  unfolding get_task exec
  revoke slug task_name user_id = do
    found ← get_task env slug task_name
    wrapping "revoke task grant" (exec env (Store.Grants.revoke found.0.id user_id))

  unfoldable pub assign : Uuid → Uuid → App Err (Unit {0})
  unfolding exec
  assign task_id user_id =
      wrapping "assign task" (exec env (Store.Grants.grant (member_grant task_id user_id)))

  unfoldable pub unassign : Uuid → Uuid → App Err (Unit {0})
  unfolding exec
  unassign task_id user_id = do
    answer ← attempt (exec env (Store.Grants.revoke task_id user_id))
    wrapping "unassign task" (lift (ignore_not_found answer))

  -- The check of a caller whose role is below owner.
  unfoldable pub check_assigner : ProjectAccess → List Uuid → App Err (Unit {0})
  unfolding query may_assign
  check_assigner acc changed = if is_owner acc.role then pure tt else do
    members ←
        wrapping "list project members" (query env (Store.Members.list_members acc.project.id))
    if may_assign members acc.user_id changed then pure tt else fail err_forbidden

  unfoldable pub tell_added : ProjectAccess → String → Uuid → App Err (Unit {0})
  unfolding tell_assignee
  tell_added acc task_name id =
      if id == acc.user_id then pure tt else tell_assignee acc.project task_name id member

  -- The writes of `SetAssignees`, and what it tells.
  unfoldable pub apply_assignees :
      ProjectAccess → String → Uuid → List Uuid → List Uuid → App Err (Unit {0})
  apply_assignees acc task_name task_id added removed = do
    for_each (assign task_id) added
    for_each (unassign task_id) removed
    for_each (tell_added acc task_name) added

  unfoldable pub set_assignees : ProjectAccess → String → List Uuid → App Err (Unit {0})
  unfolding query
  set_assignees acc task_name user_ids = do
    task ← wrapping "get task" (query env (Store.Tasks.get_by_name acc.project.id task_name))
    current ← wrapping "list task grants" (query env (Store.Grants.list_for_task task.id))
    let added = added_ids (map (λ g. g.user_id) current) [] user_ids
    let removed = removed_ids user_ids current
    check_assigner acc (added ++ removed)
    apply_assignees acc task_name task.id added removed
