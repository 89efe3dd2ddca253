-- ===== src/Project/Settings.antt =====
-- `Create`, `Update` and `Delete` of projects, and the registry credentials, of
-- internal/service/project_service.go.
pub mod Laws
use text.Mathlib.Text.{◌==◌ as text_eq}
use boreas.Prelude.{
  String, Bool, true, false, not, ◌&&◌, ◌||◌, Option, none, some, List, if◌then◌else◌, or_else,
}
use boreas.Prelude.Text.{◌<>◌, is_blank, trim_space, or_text}
use boreas.Prelude.Int.{ℤ, pos, between, or_int}
use boreas.Prelude.Dict.{Dict}
use boreas.Core.Enums.{FormFactor, web, or_form_factor, validate_form_factor}
use boreas.Core.Errors.{Err, Result, ok, err, Check, invalid, require, ◌>>◌ as also}
use boreas.Core.Names.{validate_project_slug, validate_env}
use boreas.Core.Roles.{owner}
use boreas.Core.Model.{Uuid, User, Project, RegistryCredential}
use boreas.Store
use boreas.App.{
  Env, World, App, create_folder, query, exec, lift, call, pure, fail, wrapping, ◌>>=◌, ◌>>◌,
}
use boreas.Project.Access.{get_project}

-- "" and 0 are fields that are not sent.
pub record CreateProjectInput : Type 0 where
  pub slug : String
  pub name : String
  pub registry_credential_id : Option Uuid
  pub default_image : String
  pub default_port : ℤ
  pub default_env : Dict
  pub default_form_factor : FormFactor

-- `none` is a nil pointer: the field is not sent.
pub record UpdateProjectInput : Type 0 where
  pub name : Option String
  pub registry_credential_id : Option (Option Uuid)
  pub default_image : Option String
  pub default_port : Option ℤ
  pub default_env : Option Dict
  pub default_form_factor : Option FormFactor

pub record CreateCredentialInput : Type 0 where
  pub name : String
  pub registry : String
  pub username : String
  pub token : String

abbrev pub check_port : ℤ → Check
check_port port =
    require (between 1 65535 port) (invalid "default port must be between 1 and 65535")

-- The project that an input asks for; the store gives the id.
unfoldable pub new_project : User → CreateProjectInput → Project
unfolding or_form_factor
new_project actor input = record {
  id = 0;
  slug = input.slug;
  name = or_text (trim_space input.name) input.slug;
  registry_credential_id = input.registry_credential_id;
  default_image = trim_space input.default_image;
  default_port = or_int input.default_port (pos 80);
  default_env = input.default_env;
  default_form_factor = or_form_factor input.default_form_factor web;
  created_by = some actor.id;
}

-- `if in.F != nil { validate }`
abbrev sent : {A : Type 0} → (A → Check) → Option A → Check
sent check none = ok tt
sent check (some a) = check a

-- What `Update` checks before the credential, in its order.
unfoldable pub check_update : UpdateProjectInput → Check
unfolding validate_env validate_form_factor
check_update input =
    also
      (sent (λ name. require (not (is_blank name)) (invalid "project name must not be empty"))
        input.name)
      (also (sent check_port input.default_port) (
        also (sent validate_env input.default_env)
          (sent validate_form_factor input.default_form_factor)))

abbrev trimmed : Option String → Option String
trimmed none = none
trimmed (some s) = some (trim_space s)

unfoldable pub set_fields : UpdateProjectInput → Project → Project
set_fields input project = record project {
  name = or_else input.name project.name;
  registry_credential_id = or_else input.registry_credential_id project.registry_credential_id;
  default_image = or_else (trimmed input.default_image) project.default_image;
  default_port = or_else input.default_port project.default_port;
  default_env = or_else input.default_env project.default_env;
  default_form_factor = or_else input.default_form_factor project.default_form_factor;
}

module _ (env : Env) where
  unfoldable pub check_credential : Option Uuid → App Err (Unit {0})
  unfolding query
  check_credential none = pure tt
  check_credential (some id) =
      wrapping "get registry credential" (query env (Store.Credentials.get id)) >> pure tt

  unfoldable pub add_owner : User → Project → App Err Project
  unfolding exec
  add_owner actor stored = do
    wrapping "add project owner" (
        exec env (
          Store.Members.add_member
            (record { project_id = stored.id; user_id = actor.id; role = owner })))
    pure stored

  abbrev pub create_row : Project → App Err Project
  create_row project =
      wrapping "create project" (λ w. exec env (Store.Projects.create (env.fresh w.tick) project) w)

  -- The project and its first member, in two statements.
  unfoldable pub store_project : User → Project → App Err Project
  unfolding exec add_owner
  store_project actor project = do stored ← create_row project; add_owner actor stored

  -- `ProjectService.Create`
  unfoldable pub create : User → CreateProjectInput → App Err Project
  unfolding new_project check_credential store_project validate_env validate_form_factor
  create actor input = do
    lift (validate_project_slug input.slug)
    let project = new_project actor input
    lift (check_port project.default_port)
    lift (validate_env input.default_env)
    lift (validate_form_factor project.default_form_factor)
    check_credential input.registry_credential_id
    wrapping "create project folder" (call (create_folder input.slug) env.make_folder)
    store_project actor project

  -- `ProjectService.Update`
  unfoldable pub update : String → UpdateProjectInput → App Err Project
  unfolding get_project check_update set_fields check_credential exec
  update slug input = do
    project ← get_project env slug
    lift (check_update input)
    check_credential (or_else input.registry_credential_id none)
    wrapping "update project" (exec env (Store.Projects.update (set_fields input project)))

  -- `ProjectService.Delete`
  unfoldable pub delete : String → App Err (Unit {0})
  unfolding get_project exec
  delete slug = do
    project ← get_project env slug
    wrapping "delete project" (exec env (Store.Projects.delete project.id))

  unfoldable pub list_credentials : App Err (List RegistryCredential)
  unfolding query
  list_credentials = wrapping "list credentials" (query env Store.Credentials.list)

  unfoldable pub create_credential : User → CreateCredentialInput → App Err RegistryCredential
  unfolding exec
  create_credential actor input = do
    lift (
        require (not (is_blank input.name || is_blank input.username || is_blank input.token))
          (invalid "credential name, username, and token are required"))
    lift (
        require (text_eq input.registry "ghcr" || text_eq input.registry "dockerhub")
          (invalid "registry must be ghcr or dockerhub"))
    wrapping "create credential" (λ w.
        exec env
          (Store.Credentials.create (env.fresh w.tick) (record {
            id = 0;
            name = input.name;
            registry = input.registry;
            username = input.username;
            token = input.token;
            created_by = some actor.id;
          }))
          w)

  unfoldable pub delete_credential : Uuid → App Err (Unit {0})
  unfolding exec
  delete_credential id = wrapping "delete credential" (exec env (Store.Credentials.delete id))
