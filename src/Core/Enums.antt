-- ===== src/Core/Enums.antt =====
-- The enumerations of internal/core/core.go. Each Go type is a string; a value that no constant
-- names is the constructor that carries its text, where the code can meet one.
use boreas.Prelude.{String, Bool, true, false}
use boreas.Core.Errors.{Check, ok, err, invalid}

pub data TaskStatus : Type 0 where
  creating running stopped error starting unknown : TaskStatus

pub TaskStatus-discrete : Discrete TaskStatus
TaskStatus-discrete = hlevel

pub data DevStatus : Type 0 where
  in_progress blocked ready : DevStatus
  unnamed : String → DevStatus

unfoldable pub validate_dev_status : DevStatus → Check
validate_dev_status (unnamed s) = err (invalid "dev status must be in_progress, blocked, or ready")
validate_dev_status _ = ok tt

abbrev pub dev_text : DevStatus → String
dev_text in_progress = "in_progress"
dev_text blocked = "blocked"
dev_text ready = "ready"
dev_text (unnamed s) = s

pub data FormFactor : Type 0 where
  web mobile : FormFactor
  unnamed : String → FormFactor

unfoldable pub validate_form_factor : FormFactor → Check
validate_form_factor (FormFactor.unnamed s) = err (invalid "form factor must be web or mobile")
validate_form_factor _ = ok tt

abbrev pub form_factor_text : FormFactor → String
form_factor_text web = "web"
form_factor_text mobile = "mobile"
form_factor_text (FormFactor.unnamed s) = s

-- `cmp.Or(f, g)`: the empty text is the zero value.
unfoldable pub or_form_factor : FormFactor → FormFactor → FormFactor
or_form_factor (FormFactor.unnamed String.[]) g = g
or_form_factor f g = f

pub data UserRole : Type 0 where
  admin user : UserRole
  unnamed : String → UserRole

abbrev pub is_known_role : UserRole → Bool
is_known_role (UserRole.unnamed s) = false
is_known_role _ = true

-- `cmp.Or(role, core.RoleUser)`
unfoldable pub or_user : UserRole → UserRole
or_user (UserRole.unnamed String.[]) = user
or_user r = r

pub data TokenKind : Type 0 where
  session api : TokenKind

pub data NotificationStatus : Type 0 where
  success failure info : NotificationStatus

pub data NotificationType : Type 0 where
  deployed deploy_failed status_changed task_created task_assigned build_failed : NotificationType

unfoldable pub status : NotificationType → NotificationStatus
status deployed = success
status deploy_failed = failure
status build_failed = failure
status _ = info

-- `none` is the zero value, no report yet.
pub data BuildState : Type 0 where
  none running success failure canceled : BuildState
  unnamed : String → BuildState
