-- ===== src/Bora/Person.antt =====
-- `person`, `holdsGrant`, `credential` and `projectUpdate` of internal/service/bora_tools.go: the parts
-- of an action that are read from the database.
use boreas.Prelude.{
  ◌+◌, String, Bool, true, false, not, ◌&&◌, ◌||◌, Option, none, some, List, any, find, is_some,
  length, ltb, ◌==◌, if◌then◌else◌,
}
use boreas.Prelude.Text.{is_empty, trim_space, ◌<>◌}
use boreas.Prelude.Int.{pos, int_eq}
use boreas.Core.Errors.{Err, Result, ok, err, is_not_found, require}
use boreas.Core.Model.{
  Uuid, User, ProjectAccess, ProjectMember, TaskGrant, RegistryCredential, is_admin, disabled,
}
use boreas.Store
use boreas.App.{Env, App, query, pure, fail, lift, attempt, ◌>>=◌, ◌>>◌}
use boreas.Project.Fleet.{FleetTask}
use boreas.Bora.State.{said, or_say}
use boreas.Bora.Aid.{Aid}
use boreas.Bora.Action.{
  BoraOp, member_add, member_role, member_remove, grant_remove, BoraAction, Proposal,
}
use boreas.Bora.Checks.{check_env}

abbrev pub refused : {A : Type 0} → String → Result Err A
refused text = err (said text)

-- To a non-admin, someone outside the project looks like no one.
abbrev pub nobody : User → Proposal → Err
nobody actor p =
    if is_admin actor
    then said ("refused: there is no active user named " <> p.username)
    else said (
        "refused: no one named " <> p.username <> " is in " <> p.project
        <> "; an admin can name anyone")

-- What the look-up of a user name gives.
abbrev pub active_user : User → Proposal → Result Err User → Result Err User
active_user actor p (ok u) = if disabled u then err (nobody actor p) else ok u
active_user actor p (err e) =
    if is_not_found e.kind
    then err (nobody actor p)
    else refused ("error: could not look up " <> p.username)

abbrev task_id_of : Option FleetTask → Uuid
task_id_of none = 0
task_id_of (some t) = t.task.id

-- Whether the user is a member already, as `member.add` and the others require it.
abbrev pub membership : BoraOp → Proposal → User → Bool → Result Err (Unit {0})
membership member_add p u true =
    refused
      ("refused: " <> u.username <> " is already a member of " <> p.project <> "; use member.role")
membership member_role p u false =
    refused ("refused: " <> u.username <> " is not a member of " <> p.project)
membership member_remove p u false =
    refused ("refused: " <> u.username <> " is not a member of " <> p.project)
membership op p u member = ok tt

abbrev pub is_user : Uuid → ProjectMember → Bool
is_user user_id m = m.user_id == user_id

abbrev pub has_grant : Uuid → List TaskGrant → Bool
has_grant user_id grants = any (λ g. g.user_id == user_id) grants

abbrev pub or_unknown : String → Option RegistryCredential → Result Err RegistryCredential
or_unknown name none = refused ("refused: there is no registry credential named " <> name)
or_unknown name (some c) = ok c

abbrev pub env_changed : Proposal → BoraAction → BoraAction
env_changed p a = record a { default_env_set = p.set; default_env_unset = p.unset }

abbrev pub env_change : Proposal → BoraAction → Result Err BoraAction
env_change p a =
    if ltb 0 (length p.set + length p.unset)
    then elim (check_env p.set p.unset) [ ok _ ↦ ok (env_changed p a) | err e ↦ err e ]
    else ok a

abbrev changes_nothing : BoraAction → Bool
changes_nothing a =
    is_empty a.name
    && is_empty a.default_image
    && int_eq a.default_port (pos 0)
    && length a.default_env_set == 0
    && length a.default_env_unset == 0
    && not (is_some a.registry_credential_id)

abbrev pub require_change : BoraAction → Result Err BoraAction
require_change a =
    if changes_nothing a
    then refused "refused: project.update needs a name, image, port, env or registry_credential"
    else ok a

abbrev pub with_user : BoraAction → User → BoraAction
with_user a user = record a { user_id = user.id; username = user.username }

abbrev pub with_credential : BoraAction → RegistryCredential → BoraAction
with_credential a c = record a { registry_credential_id = some c.id }

abbrev pub renamed : Proposal → BoraAction → BoraAction
renamed p a = record a {
  name = trim_space p.name;
  default_image = trim_space p.image;
  default_port = p.port;
}

module _ (env : Env) where
  unfoldable pub holds_grant : Option FleetTask → String → User → App Err (Unit {0})
  unfolding query
  holds_grant task name user = do
    grants ←
        or_say "error: could not read the grants"
          (query env (Store.Grants.list_for_task (task_id_of task)))
    lift (
        require (has_grant user.id grants)
          (said ("refused: " <> user.username <> " holds no grant on " <> name)))

  abbrev pub needs_grant : BoraOp → Option FleetTask → String → User → App Err (Unit {0})
  needs_grant grant_remove task name user = holds_grant task name user
  needs_grant op task name user = pure tt

  -- Whom an op names, who must be within the actor's reach; `task` is the task that it names.
  unfoldable pub named_user :
      Aid → User → ProjectAccess → Option FleetTask → Proposal → BoraOp → App Err User
  unfolding query holds_grant
  named_user aid actor acc task p op = do
    if aid.has_users then pure tt else fail (nobody actor p)
    reply ← attempt (query env (Store.Users.get_by_username env.lower p.username))
    user ← lift (active_user actor p reply)
    members ←
        or_say "error: could not read the members"
          (query env (Store.Members.list_members acc.project.id))
    granted ←
        or_say "error: could not read the grants"
          (query env (Store.Grants.any_in_project acc.project.id user.id))
    let member = any (is_user user.id) members
    lift (require (is_admin actor || member || granted) (nobody actor p))
    lift (membership op p user member)
    needs_grant op task p.task user
    pure user

  unfoldable pub person :
      Aid → User → ProjectAccess → Option FleetTask → Proposal → BoraAction → App Err BoraAction
  unfolding named_user
  person aid actor acc task p a = do
    user ← named_user aid actor acc task p a.op
    pure (with_user a user)

  -- The credential of a name, which only an admin may change.
  unfoldable pub named_credential : Aid → User → String → App Err RegistryCredential
  unfolding query
  named_credential aid actor name = do
    lift (
        require (is_admin actor) (said "refused: only an admin can change the registry credential"))
    credentials ←
        or_say "error: could not read the registry credentials" (query env Store.Credentials.list)
    lift (or_unknown name (find (λ c. aid.equal_fold c.name name) credentials))

  unfoldable pub credential : Aid → User → String → BoraAction → App Err BoraAction
  unfolding named_credential
  credential aid actor name a = do
    found ← named_credential aid actor name
    pure (with_credential a found)

  abbrev pub or_credential : Aid → User → String → BoraAction → App Err BoraAction
  or_credential aid actor name a = if is_empty name then pure a else credential aid actor name a

  unfoldable pub project_update_of : Aid → User → Proposal → BoraAction → App Err BoraAction
  unfolding credential
  project_update_of aid actor p a = do
    set ← lift (env_change p (renamed p a))
    whole ← or_credential aid actor p.registry_credential set
    lift (require_change whole)
