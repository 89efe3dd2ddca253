-- ===== src/Bora/Fields.antt =====
-- `fields` of internal/service/bora_tools.go: what an op carries is copied onto its action.
pub mod Laws
pub mod Roles
use boreas.Prelude.{Option}
use boreas.Prelude.Text.{trim_space}
use boreas.Core.Errors.{Err, Result, ok, err, Check}
use boreas.Core.Model.{User, ProjectAccess}
use boreas.App.{Env, App, lift, ◌>>=◌}
use boreas.Project.Fleet.{FleetTask}
use boreas.Bora.Aid.{Aid}
use boreas.Bora.Action.{
  BoraOp, task_create, task_update, task_env, member_add, member_role, member_remove, grant_add,
  grant_remove, project_update, BoraAction, Proposal,
}
use boreas.Bora.Checks.{check_env, task_update_of, set_role, in_range}
use boreas.Bora.Person.{person, project_update_of}

abbrev pub guarded : Check → BoraAction → Result Err BoraAction
guarded (ok _) a = ok a
guarded (err e) a = err e

-- What `fields` checks at its end, for the ops that come to it.
abbrev pub ranged : BoraAction → Result Err BoraAction
ranged a = guarded (in_range a) a

abbrev pub with_env : Proposal → BoraAction → Result Err BoraAction
with_env p a = guarded (check_env p.set p.unset) (record a { set = p.set; unset = p.unset })

abbrev pub create_fields : Proposal → BoraAction → BoraAction
create_fields p a = record a {
  image = trim_space p.image;
  port = p.port;
  description = p.description;
}

module _ (env : Env) (aid : Aid) (actor : User) where
  abbrev pub with_person :
      ProjectAccess → Option FleetTask → Proposal → BoraAction → App Err BoraAction
  with_person acc t p a = do named ← person env aid actor acc t p a; lift (set_role p.role named)

  abbrev pub with_settings : Proposal → BoraAction → App Err BoraAction
  with_settings p a = do next ← project_update_of env aid actor p a; lift (ranged next)

  abbrev pub with_update : Proposal → BoraAction → App Err BoraAction
  with_update p a = do next ← lift (task_update_of p a); lift (ranged next)

  unfoldable pub fields :
      BoraOp → ProjectAccess → Option FleetTask → Proposal → BoraAction → App Err BoraAction
  fields task_create acc t p a = lift (ranged (create_fields p a))
  fields task_update acc t p a = with_update p a
  fields task_env acc t p a = lift (with_env p a)
  fields member_add acc t p a = with_person acc t p a
  fields member_role acc t p a = with_person acc t p a
  fields member_remove acc t p a = with_person acc t p a
  fields grant_add acc t p a = with_person acc t p a
  fields grant_remove acc t p a = with_person acc t p a
  fields project_update acc t p a = with_settings p a
  fields op acc t p a = lift (ranged a)
