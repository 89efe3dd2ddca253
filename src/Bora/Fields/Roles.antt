-- ===== src/Bora/Fields/Roles.antt =====
-- What `fields` leaves of an action for every op, and the role that it gives.
use mathlib.Core.Path.{subst}
use boreas.Prelude.{◌≡◌, refl, ◌∙◌, true, Option, inl, arith}
use boreas.Core.Errors.{ok}
use boreas.Core.Roles.{ProjectRole, rank, is_grantable}
use boreas.Core.Model.{User, ProjectAccess}
use boreas.App.{Env, World, lift}
use boreas.App.Laws.{bind-ok}
use boreas.Project.Fleet.{FleetTask}
use boreas.Bora.Aid.{Aid}
use boreas.Bora.Action.{
  BoraOp, task_start, task_stop, task_restart, task_create, task_delete, task_update, task_env,
  member_add, member_role, member_remove, grant_add, grant_remove, project_update, project_delete,
  BoraAction, Proposal,
}
use boreas.Bora.Checks.{set_role}
use boreas.Bora.Person.{person}
use boreas.Bora.Fields.{fields, ranged, create_fields}
use boreas.Bora.Fields.Laws.{
  Kept, Credited, person-Kept, with_person_kept, with_settings_kept, with_update_kept,
  with_env-Kept, ranged_kept,
}

module _ (env : Env) (aid : Aid) (actor : User) (acc : ProjectAccess) (t : Option FleetTask)
    (p : Proposal) where
  ranged-Credited : (x a b : BoraAction) → Kept a x → ranged x ≡ ok b → Credited actor a b
  ranged-Credited x a b k h = subst (Credited actor a) (ranged_kept x b h) (k.0, inl k.1)

  -- The op, the project and the task stay, and the credential changes for an admin alone.
  pub fields_kept :
      (op : BoraOp) (a b : BoraAction) (w : World)
      → (fields env aid actor op acc t p a w).0 ≡ ok b
      → Credited actor a b
  unfolding fields
  fields_kept task_start a b w h = ranged-Credited a a b ((refl, refl, refl), refl) h
  fields_kept task_stop a b w h = ranged-Credited a a b ((refl, refl, refl), refl) h
  fields_kept task_restart a b w h = ranged-Credited a a b ((refl, refl, refl), refl) h
  fields_kept task_delete a b w h = ranged-Credited a a b ((refl, refl, refl), refl) h
  fields_kept project_delete a b w h = ranged-Credited a a b ((refl, refl, refl), refl) h
  fields_kept task_create a b w h =
      ranged-Credited (create_fields p a) a b ((refl, refl, refl), refl) h
  fields_kept task_update a b w h = with_update_kept env aid actor p a b w h
  fields_kept task_env a b w h = let k = with_env-Kept p a b h in (k.0, inl k.1)
  fields_kept member_add a b w h = with_person_kept env aid actor acc t p a b w h
  fields_kept member_role a b w h = with_person_kept env aid actor acc t p a b w h
  fields_kept member_remove a b w h = with_person_kept env aid actor acc t p a b w h
  fields_kept grant_add a b w h = with_person_kept env aid actor acc t p a b w h
  fields_kept grant_remove a b w h = with_person_kept env aid actor acc t p a b w h
  fields_kept project_update a b w h = with_settings_kept env aid actor p a b w h

  set_role-is_grantable :
      (role : ProjectRole) (a b : BoraAction)
      → a.op ≡ grant_add
      → set_role role a ≡ ok b
      → is_grantable b.role ≡ true
  unfolding set_role rank
  set_role-is_grantable role a b e h = ground (arith, rw e at h)

  -- A grant that is offered stops at member.
  pub fields-is_grantable :
      (a b : BoraAction) (w : World)
      → a.op ≡ grant_add
      → (fields env aid actor grant_add acc t p a w).0 ≡ ok b
      → is_grantable b.role ≡ true
  unfolding fields
  fields-is_grantable a b w e h =
      let (named, e1, rest) =
        bind-ok (person env aid actor acc t p a) (λ x. lift (set_role p.role x)) w h in
      let same = person-Kept env aid actor acc t p a named w e1 in
      set_role-is_grantable p.role named b (same.0.0 ∙ e) rest
