-- ===== src/Core/Model.antt =====
-- The records of internal/core/core.go. `created_at` and `updated_at` are left out, as the database
-- sets them and the services only pass them on; so are a task's assignees, which a read derives from
-- its grants, and a user's avatar time. A uuid is a number, `uuid.Nil` is 0; a time is nanoseconds
-- since the zero `time.Time`.
use boreas.Prelude.{ℕ, String, Bool, true, false, Option, none, some, List}
use boreas.Prelude.Int.{ℤ, pos}
use boreas.Prelude.Dict.{Dict}
use boreas.Core.Enums.{
  TaskStatus, DevStatus, FormFactor, UserRole, admin, TokenKind, NotificationStatus,
  NotificationType, BuildState,
}
use boreas.Core.Roles.{ProjectRole}

abbrev pub Uuid : Type 0
Uuid = ℕ

abbrev pub Time : Type 0
Time = ℕ

pub record User : Type 0 where
  pub id : Uuid
  pub username : String
  pub email : String
  pub password_hash : String
  pub role : UserRole
  pub disabled_at : Option Time

abbrev is_admin_role : UserRole → Bool
is_admin_role admin = true
is_admin_role _ = false

abbrev pub is_admin : User → Bool
is_admin u = is_admin_role u.role

abbrev is_set : Option Time → Bool
is_set none = false
is_set (some t) = true

abbrev pub disabled : User → Bool
disabled u = is_set u.disabled_at

pub record AuthToken : Type 0 where
  pub id : Uuid
  pub user_id : Uuid
  pub name : String
  pub kind : TokenKind
  pub token_hash : String
  pub valid_from : Time
  pub expires_at : Time
  pub revoked_at : Option Time

pub record RegistryCredential : Type 0 where
  pub id : Uuid
  pub name : String
  pub registry : String
  pub username : String
  pub token : String
  pub created_by : Option Uuid

pub record Project : Type 0 where
  pub id : Uuid
  pub slug : String
  pub name : String
  pub registry_credential_id : Option Uuid
  pub default_image : String
  pub default_port : ℤ
  pub default_env : Dict
  pub default_form_factor : FormFactor
  pub created_by : Option Uuid

pub record ProjectMember : Type 0 where
  pub project_id : Uuid
  pub user_id : Uuid
  pub role : ProjectRole

pub record TaskGrant : Type 0 where
  pub task_id : Uuid
  pub user_id : Uuid
  pub role : ProjectRole

pub record ProjectAccess : Type 0 where
  pub project : Project
  pub user_id : Uuid
  pub role : ProjectRole
  pub all_tasks : Bool

-- Forwards a path under a task's App URL to an address.
pub record Route : Type 0 where
  pub path : String
  pub url : String
  pub any_cert : Bool

pub record Build : Type 0 where
  pub state : BuildState
  pub stage : String
  pub progress : ℤ
  pub url : String
  pub at : Time

pub record Revision : Type 0 where
  pub repo : String
  pub commit : String
  pub previous : String

abbrev pub no_build : Build
no_build = record { state = BuildState.none; stage = ""; progress = pos 0; url = ""; at = 0 }

abbrev pub no_revision : Revision
no_revision = record { repo = ""; commit = ""; previous = "" }

pub record Task : Type 0 where
  pub id : Uuid
  pub project_id : Uuid
  pub name : String
  pub description : String
  pub note : String
  pub image : String
  pub status : TaskStatus
  pub dev_status : DevStatus
  pub form_factor : FormFactor
  pub password_hash : String
  pub port : ℤ
  pub container_id : String
  pub container_ip : String
  pub labels : Dict
  pub env : Dict
  pub volumes : Dict
  pub routes : List Route
  pub build : Build
  pub revision : Revision
  pub pending_recreate : Bool
  pub error : String

pub record Notification : Type 0 where
  pub project_id : Uuid
  pub task_name : String
  pub type : NotificationType
  pub status : NotificationStatus
  pub title : String
  pub body : String
  pub user_id : Option Uuid

pub record ContainerSpec : Type 0 where
  pub project : String
  pub name : String
  pub image : String
  pub port : ℤ
  pub labels : Dict
  pub env : Dict
  pub volumes : Dict

-- `Task.Spec`
unfoldable pub spec : Task → String → ContainerSpec
spec t project_slug = record {
  project = project_slug;
  name = t.name;
  image = t.image;
  port = t.port;
  labels = t.labels;
  env = t.env;
  volumes = t.volumes;
}

pub record ContainerState : Type 0 where
  pub exists : Bool
  pub status : TaskStatus
  pub ip : String
  pub error : String
