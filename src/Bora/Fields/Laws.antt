-- ===== src/Bora/Fields/Laws.antt =====
-- What the fields that an op carries leave of its action, and what they may add to it.
use mathlib.Core.Path.{subst}
use boreas.Prelude.{String, ◌⊎◌, ◌≡◌, refl, true, Option, inl, inr, arith, Bool-cases}
use boreas.Prelude.Text.{is_empty}
use boreas.Core.Errors.{Err, Result, ok, err, Check}
use boreas.Core.Roles.{ProjectRole}
use boreas.Core.Model.{User, RegistryCredential, ProjectAccess, is_admin}
use boreas.App.{Env, World, ◌>>=◌, pure, lift}
use boreas.App.Laws.{bind-ok}
use boreas.Project.Fleet.{FleetTask}
use boreas.Bora.Aid.{Aid}
use boreas.Bora.Action.{BoraAction, Proposal}
use boreas.Bora.Checks.{check_env, set_role, task_update_of, in_range}
use boreas.Bora.Person.{
  named_user, with_user, named_credential, with_credential, or_credential, require_change, renamed,
  person, credential, project_update_of, env_change,
}
use boreas.Bora.Fields.{guarded, with_settings, with_update, ranged, with_env, with_person}

-- The op, the project and the task of an action, which no field changes.
abbrev pub SamePlace : BoraAction → BoraAction → Type 0
SamePlace a b = (b.op ≡ a.op) × (b.project ≡ a.project) × (b.task ≡ a.task)

abbrev pub SameCredential : BoraAction → BoraAction → Type 0
SameCredential a b = b.registry_credential_id ≡ a.registry_credential_id

ok_inj : {B : Type 0} {x b : B} → ◌≡◌ {A = Result Err B} (ok x) (ok b) → x ≡ b
ok_inj e = cc

pub pure_gives :
    {B : Type 0} (Q : B → Type 0) {x b : B} → Q x → ◌≡◌ {A = Result Err B} (ok x) (ok b) → Q b
pure_gives Q q e = subst Q (ok_inj e) q

abbrev pub Kept : BoraAction → BoraAction → Type 0
Kept a b = SamePlace a b × SameCredential a b

pub person-Kept :
    (env : Env) (aid : Aid) (actor : User) (acc : ProjectAccess) (t : Option FleetTask)
    (p : Proposal) (a b : BoraAction) (w : World)
    → (person env aid actor acc t p a w).0 ≡ ok b
    → Kept a b
unfolding person
person-Kept env aid actor acc t p a b w h =
    let (u, _, e) =
      bind-ok (named_user env aid actor acc t p a.op) (λ u. pure (with_user a u)) w h in
    pure_gives (Kept a) ((refl, refl, refl), refl) e

pub set_role-Kept : (role : ProjectRole) (a b : BoraAction) → set_role role a ≡ ok b → Kept a b
unfolding set_role
set_role-Kept role a b h = ground arith

guarded-ok : (c : Check) (a b : BoraAction) → guarded c a ≡ ok b → a ≡ b
guarded-ok (ok _) a b h = ok_inj h
guarded-ok (err e) a b h = cc

pub ranged_kept : (a b : BoraAction) → ranged a ≡ ok b → a ≡ b
ranged_kept a b h = guarded-ok (in_range a) a b h

pub with_env-Kept : (p : Proposal) (a b : BoraAction) → with_env p a ≡ ok b → Kept a b
with_env-Kept p a b h =
    subst (Kept a) (guarded-ok (check_env p.set p.unset) _ b h) ((refl, refl, refl), refl)

update-Kept : (p : Proposal) (a b : BoraAction) → task_update_of p a ≡ ok b → Kept a b
unfolding task_update_of
update-Kept p a b h = ground arith

-- The credential of an action changes for an admin alone.
abbrev pub Credited : User → BoraAction → BoraAction → Type 0
Credited actor a b =
    SamePlace a b
    × ((b.registry_credential_id ≡ a.registry_credential_id) ⊎ (is_admin actor ≡ true))

named_credential-admin :
    (env : Env) (aid : Aid) (actor : User) (name : String) (w : World) (c : RegistryCredential)
    → (named_credential env aid actor name w).0 ≡ ok c
    → is_admin actor ≡ true
unfolding named_credential
named_credential-admin env aid actor name w c h = ground arith

or_credential_kept :
    (env : Env) (aid : Aid) (actor : User) (name : String) (a b : BoraAction) (w : World)
    → (or_credential env aid actor name a w).0 ≡ ok b
    → Credited actor a b
unfolding credential
or_credential_kept env aid actor name a b w h = elim (Bool-cases (is_empty name)) [
  | inl e ↦ pure_gives (Credited actor a) ((refl, refl, refl), inl refl) (rw e at h)
  | inr e ↦
      let (c, found, rest) =
        bind-ok (named_credential env aid actor name) (λ c. pure (with_credential a c)) w
          (rw e at h) in
      pure_gives (Credited actor a)
        ((refl, refl, refl), inr (named_credential-admin env aid actor name w c found)) rest
]

env_change-Kept : (p : Proposal) (a b : BoraAction) → env_change p a ≡ ok b → Kept a b
unfolding check_env
env_change-Kept p a b h = ground arith

require_change_kept : (a b : BoraAction) → require_change a ≡ ok b → a ≡ b
require_change_kept a b h = ground arith

project_update_of_kept :
    (env : Env) (aid : Aid) (actor : User) (p : Proposal) (a b : BoraAction) (w : World)
    → (project_update_of env aid actor p a w).0 ≡ ok b
    → Credited actor a b
unfolding project_update_of
project_update_of_kept env aid actor p a b w h =
    let (set, e1, rest) =
      bind-ok (lift (env_change p (renamed p a)))
        (λ set. or_credential env aid actor p.registry_credential set >>= λ whole.
          lift (require_change whole))
        w h in
    let (whole, e2, last) =
      bind-ok (or_credential env aid actor p.registry_credential set)
        (λ whole. lift (require_change whole)) w rest in
    let same = env_change-Kept p (renamed p a) set e1 in
    let next = or_credential_kept env aid actor p.registry_credential set whole w e2 in
    subst (Credited actor a) (require_change_kept whole b last) (ground (arith, same, next))

pub with_person_kept :
    (env : Env) (aid : Aid) (actor : User) (acc : ProjectAccess) (t : Option FleetTask)
    (p : Proposal) (a b : BoraAction) (w : World)
    → (with_person env aid actor acc t p a w).0 ≡ ok b
    → Credited actor a b
with_person_kept env aid actor acc t p a b w h =
    let (named, e1, rest) =
      bind-ok (person env aid actor acc t p a) (λ x. lift (set_role p.role x)) w h in
    let same = person-Kept env aid actor acc t p a named w e1 in
    let next = set_role-Kept p.role named b rest in ground (arith, same, next)

pub with_settings_kept :
    (env : Env) (aid : Aid) (actor : User) (p : Proposal) (a b : BoraAction) (w : World)
    → (with_settings env aid actor p a w).0 ≡ ok b
    → Credited actor a b
with_settings_kept env aid actor p a b w h =
    let (next, e1, rest) =
      bind-ok (project_update_of env aid actor p a) (λ x. lift (ranged x)) w h in
    subst (Credited actor a) (ranged_kept next b rest)
      (project_update_of_kept env aid actor p a next w e1)

pub with_update_kept :
    (env : Env) (aid : Aid) (actor : User) (p : Proposal) (a b : BoraAction) (w : World)
    → (with_update env aid actor p a w).0 ≡ ok b
    → Credited actor a b
with_update_kept env aid actor p a b w h =
    let (next, e1, rest) = bind-ok (lift (task_update_of p a)) (λ x. lift (ranged x)) w h in
    let same = update-Kept p a next e1 in
    subst (Credited actor a) (ranged_kept next b rest) (same.0, inl same.1)
