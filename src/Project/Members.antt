-- ===== src/Project/Members.antt =====
-- `ListMembers`, `AddMember`, `RemoveMember` and `keepOwner` of internal/service/project_service.go.
pub mod Owners
pub mod Laws
use boreas.Prelude.{
  String, Bool, true, false, not, ◌&&◌, List, [], ◌∷◌, keep, ltb, ◌==◌, if◌then◌else◌,
}
use boreas.Prelude.Text.{◌<>◌}
use boreas.Core.Errors.{Err, ok, err, invalid, require, err_conflict, wrap}
use boreas.Core.Roles.{ProjectRole, rank, is_owner}
use boreas.Core.Model.{Uuid, Project, ProjectMember}
use boreas.Store
use boreas.App.{Env, App, query, exec, lift, pure, fail, wrapping, ◌>>=◌, ◌>>◌}
use boreas.Project.Access.{get_project, quoted}

abbrev pub is_last : Uuid → List ProjectMember → Bool
is_last user_id (owner ∷ []) = owner.user_id == user_id
is_last user_id _ = false

module _ (env : Env) where
  unfoldable pub list_members : String → App Err (List ProjectMember)
  unfolding get_project query
  list_members slug = do
    project ← get_project env slug
    wrapping "list members" (query env (Store.Members.list_members project.id))

  unfoldable pub keep_owner : Project → Uuid → App Err (Unit {0})
  unfolding query
  keep_owner project user_id = do
    members ← wrapping "list members" (query env (Store.Members.list_members project.id))
    let owners = keep (λ m. is_owner m.role) members
    if is_last user_id owners
        then fail
            (wrap (quoted "project" project.slug <> " would lose its last owner") err_conflict)
        else pure tt

  -- The rest of `AddMember`, once the project is found.
  unfoldable pub add_to_project : Uuid → ProjectRole → Project → App Err (Unit {0})
  unfolding keep_owner exec
  add_to_project user_id role project = do
    if is_owner role then pure tt else keep_owner project user_id
    wrapping "add member" (
        exec env (
          Store.Members.add_member
            (record { project_id = project.id; user_id = user_id; role = role })))

  unfoldable pub add_member : String → Uuid → ProjectRole → App Err (Unit {0})
  unfolding get_project add_to_project
  add_member slug user_id role = do
    lift (require (ltb 0 (rank role)) (invalid "role must be viewer, operator, member, or owner"))
    project ← get_project env slug
    add_to_project user_id role project

  unfoldable pub remove_member : String → Uuid → App Err (Unit {0})
  unfolding get_project keep_owner exec
  remove_member slug user_id = do
    project ← get_project env slug
    keep_owner project user_id
    wrapping "remove member" (exec env (Store.Members.remove_member project.id user_id))
