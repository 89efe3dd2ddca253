-- ===== src/Bora/Propose.antt =====
-- `propose` of internal/service/bora_tools.go: what the route will check again is checked,
-- and names are turned into ids; nothing runs.
pub mod Laws
pub mod Sound
use boreas.Prelude.{
  ℕ, String, not, ◌&&◌, Option, none, some, [], ◌∷◌, ◌++◌, any, length, ltb, leb, if◌then◌else◌,
}
use boreas.Prelude.Text.{trim_space, ◌<>◌}
use boreas.Core.Errors.{Err, Result, ok, err, Check}
use boreas.Core.Roles.{ProjectRole, rank, role_text}
use boreas.Core.Model.{ProjectAccess}
use boreas.App.{Env}
use boreas.Project.Fleet.{FleetTask}
use boreas.Bora.State.{Bora, Tool, pure, lift, look, check, update, run, ◌>>=◌, ◌>>◌}
use boreas.Bora.Lookup.{project, task}
use boreas.Bora.Redact.{redact}
use boreas.Bora.Aid.{Aid}
use boreas.Bora.Action.{
  BoraOp, op_text, op_named, need, is_on_task, is_safe, BoraAction, new_action, same_button,
  Proposal,
}
use boreas.Bora.Checks.{task_role, valid_task_name}
use boreas.Bora.Person.{refused}
use boreas.Bora.Fields.{fields}

abbrev pub max_actions : ℕ
max_actions = 10

-- `string(runes[:min(len(runes), n)])`
unfoldable pub truncate : String → ℕ → String
truncate String.[] n = String.[]
truncate (String.◌∷◌ c s) Prim.Native.Nat.zero = String.[]
truncate (String.◌∷◌ c s) (Prim.Native.Nat.suc n) = String.◌∷◌ c (truncate s n)

-- The actor's role where the op acts, and the task that it names.
abbrev pub role_there :
    BoraOp → ProjectAccess → Option FleetTask → Proposal → Result Err ProjectRole
role_there op acc t p =
    if is_on_task op
    then elim (valid_task_name p.task) [ ok _ ↦ task_role acc op p t | err e ↦ err e ]
    else ok acc.role

abbrev pub where_text : BoraOp → Proposal → String
where_text op p = if is_on_task op then p.project <> "/" <> p.task else p.project

-- The role the route requires, as the refusal words it.
abbrev pub allowed : BoraOp → Proposal → ProjectRole → Check
allowed op p role =
    if ltb (rank role) (rank (need op))
    then refused (
        "refused: you are "
        <> role_text role
        <> " on "
        <> where_text op p
        <> "; "
        <> op_text op
        <> " needs "
        <> role_text (need op)
        <> " or higher")
    else ok tt

abbrev pub reason_of : Aid → Proposal → String
reason_of aid p = truncate (trim_space (redact aid.replace_all p.reason)) 200

abbrev pub action_of : Aid → BoraOp → Proposal → BoraAction
action_of aid op p = record (new_action op p.project (reason_of aid p)) {
  task = if is_on_task op then p.task else "";
}

-- The op list that a refusal shows.
abbrev pub op_of : Option BoraOp → Result Err BoraOp
op_of none =
    refused
      "refused: op must be one of [grant.add grant.remove member.add member.remove member.role project.delete project.update task.create task.delete task.env task.restart task.start task.stop task.update]"
op_of (some op) = ok op

abbrev pub offer : BoraAction → Bora → Bora
offer a b = record b { actions = b.actions ++ a ∷ [] }

abbrev pub no_button : BoraAction → Bora → Check
no_button a b =
    if any (λ old. same_button old a) b.actions
    then refused "refused: the user already has a button for this"
    else ok tt

abbrev pub safe_check : BoraOp → Bora → Check
safe_check op b =
    if b.tainted && not (is_safe op)
    then refused
        "refused: after reading code or an image, only start, stop and restart can be offered"
    else ok tt

abbrev pub room_check : Bora → Check
room_check b =
    if leb max_actions (length b.actions)
    then refused "refused: at most 10 actions per answer"
    else ok tt

abbrev pub or_stranger : String → Option ProjectAccess → Result Err ProjectAccess
or_stranger slug none = refused ("refused: you are not a member of a project named " <> slug)
or_stranger slug (some acc) = ok acc

abbrev pub proposed : BoraOp → Proposal → String
proposed op p =
    "proposed: the user now sees a button for "
    <> op_text op
    <> " on "
    <> where_text op p
    <> "; it has not run, and runs only if they confirm"

-- The last checks of `propose`, on the op and the project it resolved.
unfoldable pub propose_on : Env → Aid → Proposal → BoraOp → ProjectAccess → Tool (Unit {0})
unfolding task fields
propose_on env aid p op acc = do
  role ← check λ b. role_there op acc (task acc p.task b) p
  lift (allowed op p role)
  action ← run λ b. fields env aid b.actor op acc (task acc p.task b) p (action_of aid op p)
  check (no_button action)
  update (offer action)

unfoldable pub propose : Env → Aid → Proposal → Tool String
unfolding op_named project propose_on
propose env aid p = do
  op ← lift (op_of (op_named env.unicode_lower p.op))
  check (safe_check op)
  seen ← project p.project
  acc ← lift (or_stranger p.project seen)
  check room_check
  propose_on env aid p op acc
  pure (proposed op p)
