-- ===== src/Bora/Checks.antt =====
-- `taskRole`, `fields`, `taskUpdate`, `projectUpdate`, `credential`, `setRole` and `checkEnv` of
-- internal/service/bora_tools.go: what an action carries, checked as its route checks it.
use boreas.Prelude.{
  ℕ, ◌+◌, String, Bool, true, false, not, ◌&&◌, ◌||◌, Option, none, some, List, [], ◌∷◌, ◌++◌, any,
  all, is_some, map, length, ltb, ◌==◌, if◌then◌else◌,
}
use boreas.Prelude.Text.{codes, is_alnum, is_lower, is_upper, is_empty, trim_space, ◌<>◌}
use boreas.Prelude.Int.{ℤ, pos, between, int_eq}
use boreas.Prelude.Dict.{Dict, lookup}
use boreas.Core.Errors.{Err, Result, ok, err, Check, require, ◌>>◌}
use boreas.Core.Enums.{dev_text, validate_dev_status}
use boreas.Core.Roles.{ProjectRole, rank, is_owner}
use boreas.Core.Model.{ProjectAccess}
use boreas.Core.Names.{validate_task_name, validate_env}
use boreas.Core.Spec.{validate_volumes}
use boreas.Project.Fleet.{FleetTask}
use boreas.Bora.State.{said}
use boreas.Bora.Action.{
  BoraOp, task_create, member_add, member_role, grant_add, BoraAction, Proposal,
}

abbrev pub is_ok : {A : Type 0} → Result Err A → Bool
is_ok (ok a) = true
is_ok (err e) = false

-- `^[A-Za-z_][A-Za-z0-9_]*$`
abbrev pub env_key_pattern : List ℕ → Bool
env_key_pattern [] = false
env_key_pattern (c ∷ cs) =
    (is_lower c || is_upper c || c == b'_') && all (λ d. is_alnum d || d == b'_') cs

abbrev pub is_env_key : String → Bool
is_env_key key = env_key_pattern (codes key)

-- The first name that is not a variable's is the one refused.
abbrev pub require_keys : List String → Check
require_keys [] = ok tt
require_keys (key ∷ keys) =
    if is_env_key key
    then require_keys keys
    else err (said ("refused: " <> key <> " is not a variable name"))

abbrev pub is_set_in : Dict → String → Bool
is_set_in env key = is_some (lookup key env)

unfoldable pub check_env : Dict → List String → Check
unfolding lookup
check_env set unset = do
  require (ltb 0 (length set + length unset)) (said "refused: name variables to set or unset")
  require_keys (map (λ kv. kv.0) set ++ unset)
  require (is_ok (validate_env set))
      (said "refused: Boreas sets BOREAS_PROJECT, BOREAS_TASK, BOREAS_PORT and BASE_HREF itself")
  require (not (any (is_set_in set) unset))
      (said "refused: a variable cannot be both set and unset")

-- The rest of `taskRole`, on the task if it exists: the actor's role there.
unfoldable pub task_role :
    ProjectAccess → BoraOp → Proposal → Option FleetTask → Result Err ProjectRole
task_role acc task_create p (some t) =
    err (said ("refused: task " <> p.task <> " already exists in " <> p.project))
task_role acc task_create p none =
    if is_empty p.image && is_empty acc.project.default_image
    then err (said ("refused: " <> p.project <> " has no default image, so name the image to run"))
    else ok acc.role
task_role acc op p none = err (said ("refused: there is no task " <> p.task <> " in " <> p.project))
task_role acc op p (some t) = ok t.role

abbrev pub valid_task_name : String → Check
valid_task_name name =
    require (is_ok (validate_task_name name)) (said ("refused: " <> name <> " is not a task name"))

abbrev is_zero : ℤ → Bool
is_zero n = int_eq n (pos 0)

abbrev no_items : {A : Type 0} → List A → Bool
no_items [] = true
no_items _ = false

unfoldable pub task_update_of : Proposal → BoraAction → Result Err BoraAction
task_update_of p a = do
  let next : BoraAction = record a {
    description = p.description;
    note = p.note;
    dev_status = p.dev_status;
    image = trim_space p.image;
    port = p.port;
    auto_restart = p.auto_restart;
    volumes = p.volumes;
  }
  require
      (not (
        is_empty next.description
        && is_empty next.note
        && is_empty (dev_text next.dev_status)
        && is_empty next.image
        && is_zero next.port
        && no_items next.volumes))
      (said "refused: task.update needs a description, note, dev_status, image, port or volumes")
  require (is_ok (validate_volumes p.volumes))
      (said "refused: volumes map a clean absolute container path to a project folder name")
  ok next

-- A grant's role stops at member; an op that takes none leaves it.
unfoldable pub set_role : ProjectRole → BoraAction → Result Err BoraAction
set_role role a = elim a.op [
  | member_add ↦ member_role_of role a
  | member_role ↦ member_role_of role a
  | grant_add ↦
      if rank role == 0 || is_owner role
      then err (said "refused: a grant's role must be viewer, operator or member")
      else ok (record a { role = role })
  | _ ↦ ok a
]
  where
    member_role_of : ProjectRole → BoraAction → Result Err BoraAction
    member_role_of r b =
        if rank r == 0
        then err (said "refused: role must be viewer, operator, member or owner")
        else ok (record b { role = r })

-- A port and a status that an action carries.
unfoldable pub in_range : BoraAction → Check
in_range a = do
  require (between 0 65535 a.port && between 0 65535 a.default_port)
      (said "refused: port must be 1 to 65535")
  require (is_empty (dev_text a.dev_status) || is_ok (validate_dev_status a.dev_status))
      (said "refused: dev_status must be in_progress, blocked or ready")
