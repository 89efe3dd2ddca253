-- ===== src/Bora/Action.antt =====
-- `BoraOp`, `BoraOps` and `BoraAction` of internal/core/core.go, and `proposal` of
-- internal/service/bora_tools.go.
use boreas.Prelude.{
  ℕ, String, Bool, true, false, ◌&&◌, Option, none, some, List, [], ◌∷◌, map, ◌==◌, if◌then◌else◌,
}
use text.Mathlib.Text.{◌==◌ as text_eq}
use boreas.Prelude.Text.{codes}
use boreas.Prelude.Int.{ℤ, pos}
use boreas.Prelude.Dict.{Dict}
use boreas.Core.Enums.{DevStatus}
use boreas.Core.Roles.{ProjectRole, absent, operator, member, owner}
use boreas.Core.Model.{Uuid}
use boreas.Proxy.Registry.{lower_rune}
use boreas.Proxy.Registry.SiteMap.{key_eq}

-- The keys of `BoraOps`.
pub data BoraOp : Type 0 where
  task_start task_stop task_restart task_create task_delete task_update task_env : BoraOp
  member_add member_role member_remove grant_add grant_remove : BoraOp
  project_update project_delete : BoraOp

abbrev pub op_text : BoraOp → String
op_text task_start = "task.start"
op_text task_stop = "task.stop"
op_text task_restart = "task.restart"
op_text task_create = "task.create"
op_text task_delete = "task.delete"
op_text task_update = "task.update"
op_text task_env = "task.env"
op_text member_add = "member.add"
op_text member_role = "member.role"
op_text member_remove = "member.remove"
op_text grant_add = "grant.add"
op_text grant_remove = "grant.remove"
op_text project_update = "project.update"
op_text project_delete = "project.delete"

-- `BoraOps[op]`: the role that the route which runs it requires.
unfoldable pub need : BoraOp → ProjectRole
need task_start = operator
need task_stop = operator
need task_restart = operator
need task_create = member
need task_delete = member
need task_update = member
need task_env = member
need _ = owner

abbrev pub bora_ops : List BoraOp
bora_ops =
    task_start ∷ task_stop ∷ task_restart ∷ task_create ∷ task_delete ∷ task_update ∷ task_env
    ∷ member_add ∷ member_role ∷ member_remove ∷ grant_add ∷ grant_remove ∷ project_update
    ∷ project_delete ∷ []

pub op_in : List BoraOp → List ℕ → Option BoraOp
unfolding key_eq
op_in [] name = none
op_in (op ∷ ops) name = if key_eq (codes (op_text op)) name then some op else op_in ops name

-- The op that a text names, whatever its case.
unfoldable pub op_named : (ℕ → ℕ) → String → Option BoraOp
unfolding op_in
op_named unicode_lower s = op_in bora_ops (map (lower_rune unicode_lower) (codes s))

abbrev pub same_op : BoraOp → BoraOp → Bool
same_op a b = text_eq (op_text a) (op_text b)

-- The family of an op, before its dot, is "task" or "grant".
abbrev pub is_on_task : BoraOp → Bool
is_on_task member_add = false
is_on_task member_role = false
is_on_task member_remove = false
is_on_task project_update = false
is_on_task project_delete = false
is_on_task _ = true

-- What may be offered after code or an image was read.
abbrev pub is_safe : BoraOp → Bool
is_safe task_start = true
is_safe task_stop = true
is_safe task_restart = true
is_safe _ = false

pub record BoraAction : Type 0 where
  pub op : BoraOp
  pub project : String
  pub task : String
  pub reason : String
  pub user_id : Uuid
  pub username : String
  pub role : ProjectRole
  pub name : String
  pub description : String
  pub note : String
  pub dev_status : DevStatus
  pub image : String
  pub port : ℤ
  pub auto_restart : Option Bool
  pub volumes : Dict
  pub set : Dict
  pub unset : List String
  pub default_image : String
  pub default_port : ℤ
  pub default_env_set : Dict
  pub default_env_unset : List String
  pub registry_credential_id : Option Uuid

-- `BoraAction{Op: op, Project: project, Reason: reason}`
abbrev pub new_action : BoraOp → String → String → BoraAction
new_action op project reason = record {
  op = op;
  project = project;
  task = "";
  reason = reason;
  user_id = 0;
  username = "";
  role = absent;
  name = "";
  description = "";
  note = "";
  dev_status = DevStatus.unnamed "";
  image = "";
  port = pos 0;
  auto_restart = none;
  volumes = [];
  set = [];
  unset = [];
  default_image = "";
  default_port = pos 0;
  default_env_set = [];
  default_env_unset = [];
  registry_credential_id = none;
}

-- `a.Op == op && a.Project == action.Project && a.Task == action.Task && a.UserID == action.UserID`
abbrev pub same_button : BoraAction → BoraAction → Bool
same_button a b =
    same_op a.op b.op
    && text_eq a.project b.project
    && text_eq a.task b.task
    && a.user_id == b.user_id

-- What the model passes to propose_action.
pub record Proposal : Type 0 where
  pub op : String
  pub project : String
  pub task : String
  pub reason : String
  pub username : String
  pub name : String
  pub description : String
  pub note : String
  pub image : String
  pub role : ProjectRole
  pub dev_status : DevStatus
  pub port : ℤ
  pub auto_restart : Option Bool
  pub volumes : Dict
  pub set : Dict
  pub unset : List String
  pub registry_credential : String
