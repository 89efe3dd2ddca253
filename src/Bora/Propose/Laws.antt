-- ===== src/Bora/Propose/Laws.antt =====
-- What a proposal that is accepted was checked for, and what a refused one leaves alone.
use mathlib.Core.Path.{subst}
use boreas.Prelude.{
  ◌≡◌, sym, ◌∙◌, ◌≤◌, ◌<◌, Bool, true, false, inl, inr, Option, none, some, [], ◌∷◌, ◌++◌, find,
  any, length, is_some, arith, Bool-cases, if◌then◌else◌,
}
use boreas.Core.Errors.{Err, Result, ok, err}
use boreas.Core.Roles.{ProjectRole, rank, is_grantable}
use boreas.Core.Model.{ProjectAccess, is_admin}
use boreas.App.{Env}
use boreas.Project.Fleet.{FleetTask}
use boreas.Bora.State.{Bora, Session}
use boreas.Bora.Aid.{Aid}
use boreas.Bora.Action.{
  BoraOp, task_create, grant_add, need, is_on_task, is_safe, BoraAction, same_button, Proposal,
}
use boreas.Bora.Lookup.{has_slug, task}
use boreas.Bora.Checks.{task_role}
use boreas.Bora.Fields.{fields}
use boreas.Bora.Fields.Roles.{fields_kept, fields-is_grantable}
use boreas.Bora.Propose.{max_actions, role_there, allowed, action_of, safe_check}

abbrev is_create : BoraOp → Bool
is_create task_create = true
is_create _ = false

-- The role with which the actor runs an op: on the task that it names, or on the project. A task to
-- create must be new, and any other must exist.
abbrev pub acting_role : BoraOp → ProjectAccess → Option FleetTask → Option ProjectRole
acting_role op acc t =
    if is_on_task op
    then elim t [
      | none ↦ if is_create op then some acc.role else none
      | some row ↦ if is_create op then none else some row.role
    ]
    else some acc.role

-- What makes an action fit to be offered by an answer.
pub record IsFit (b : Bora) (a : BoraAction) : Type 0 where
  -- It is on a project of the answer, and the actor's role suffices for its route.
  pub place :
      (acc : ProjectAccess) × (role : ProjectRole) × (find (has_slug a.project) b.members
        ≡ some acc)
      × (acting_role a.op acc (task acc a.task b) ≡ some role)
      × (rank (need a.op) ≤ rank role)
  -- After code or an image was read, it only starts, stops or restarts a task.
  pub safe : b.tainted ≡ true → is_safe a.op ≡ true
  pub admin_only : is_some a.registry_credential_id ≡ true → is_admin b.actor ≡ true
  pub grant : a.op ≡ grant_add → is_grantable a.role ≡ true

role_there-acting :
    (op : BoraOp) (acc : ProjectAccess) (t : Option FleetTask) (p : Proposal) (role : ProjectRole)
    → role_there op acc t p ≡ ok role
    → acting_role op acc t ≡ some role
unfolding task_role
role_there-acting op acc t p role h = ground arith

-- The task of the action is the one that was looked up; other ops have none.
acting_role-action :
    (aid : Aid) (op : BoraOp) (acc : ProjectAccess) (p : Proposal) (b : Bora)
    → acting_role op acc (task acc (action_of aid op p).task b)
      ≡ acting_role op acc (task acc p.task b)
acting_role-action aid op acc p b = elim (Bool-cases (is_on_task op)) [
  | inl e ↦ rw e
  | inr e ↦ rw e
]

allowed-rank :
    (op : BoraOp) (p : Proposal) (role : ProjectRole)
    → allowed op p role ≡ ok tt
    → rank (need op) ≤ rank role
allowed-rank op p role h = ground arith

pub safe_check-safe :
    (op : BoraOp) (b : Bora) → safe_check op b ≡ ok tt → b.tainted ≡ true → is_safe op ≡ true
safe_check-safe op b h t = ground arith

-- An answer's reply to a proposal: one button more, which is fit, new and not above the limit, or the
-- same buttons.
abbrev pub Outcome : {A : Type 0} → Bora → Result Err A → Bora → Type 0
Outcome b (ok _) b' =
    (a : BoraAction) × (b'.actions ≡ b.actions ++ a ∷ [])
    × IsFit b a
    × (any (λ old. same_button old a) b.actions ≡ false)
    × (length b.actions < max_actions)
Outcome b (err _) b' = b'.actions ≡ b.actions

pub IsFit-of_fields :
    (env : Env) (aid : Aid) (op : BoraOp) (acc : ProjectAccess) (p : Proposal) (s : Session)
    (role : ProjectRole) (a : BoraAction)
    → find (has_slug p.project) s.bora.members ≡ some acc
    → (s.bora.tainted ≡ true → is_safe op ≡ true)
    → role_there op acc (task acc p.task s.bora) p ≡ ok role
    → allowed op p role ≡ ok tt
    → (fields env aid s.bora.actor op acc (task acc p.task s.bora) p (action_of aid op p) s.world).0
      ≡ ok a
    → IsFit s.bora a
IsFit-of_fields env aid op acc p s role a seen safe there enough filled =
    let t = task acc p.task s.bora in
    let kept = fields_kept env aid s.bora.actor acc t p op (action_of aid op p) a s.world filled in
    let same_op : a.op ≡ op = kept.0.0 in
    let same_task : a.task ≡ (action_of aid op p).task = kept.0.2 in
    let with_op =
      acting_role-action aid op acc p s.bora ∙ role_there-acting op acc t p role there in
    let acting : acting_role a.op acc (task acc a.task s.bora) ≡ some role =
      subst (λ o. acting_role o acc (task acc a.task s.bora) ≡ some role) (sym same_op)
        (subst (λ n. acting_role op acc (task acc n s.bora) ≡ some role) (sym same_task) with_op) in
    record {
      place = (acc, role, rw (kept.0.1) seen, acting, rw same_op (allowed-rank op p role enough));
      safe = λ e. rw same_op (safe e);
      admin_only = λ e. ground (arith, kept);
      grant = λ e.
          fields-is_grantable env aid s.bora.actor acc t p (action_of aid op p) a s.world
            (sym same_op ∙ e)
            (subst
              (λ o. (fields env aid s.bora.actor o acc t p (action_of aid op p) s.world).0 ≡ ok a)
              (sym same_op ∙ e) filled);
    }
