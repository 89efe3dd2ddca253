-- ===== src/Project/Grants/Laws.antt =====
-- Who is on a task after `SetAssignees`, and who may call it.
use boreas.Prelude.{
  suc, String, ◌≡◌, refl, ◌∙◌, inl, inr, Bool, true, false, not, ◌&&◌, ◌||◌, some, List, [], ◌∷◌,
  ◌++◌, map, all, ◌≢◌, keep, find, change, arith, ◌==◌, leb, if◌then◌else◌, Option-cases,
}
use boreas.Core.Errors.{ok, Result-cases}
use boreas.Core.Roles.{ProjectRole, rank, is_owner, is_grantable}
use boreas.Core.Model.{Uuid, TaskGrant, ProjectMember, ProjectAccess, Task}
use boreas.Store.Grants.{is_grant, set_role, upsert}
use boreas.Store.Tasks.{is_named}
use boreas.Store
use boreas.App.{Env, World, for_each, ◌>>◌}
use boreas.App.Laws.{bind-ok, bind_of_ok, for_each_rule, bind_rule}
use boreas.Project.Access.{get_task}
use boreas.Project.Access.Laws.{get_task_reads}
use boreas.Project.Grants.{
  contains, added_ids, removed_ids, role_of, member_grant, assign, unassign, tell_added,
  check_assigner, apply_assignees, set_assignees, tell_assignee, grant,
}
use boreas.Project.Grants.Loops.{
  granted, granted-assign_all, granted-unassign_all, tell_added_reads, contains-added_ids,
  contains-removed_ids, contains-current,
}

check_assigner_reads :
    (env : Env) (acc : ProjectAccess) (changed : List Uuid) (w : World)
    → (check_assigner env acc changed w).1.db ≡ w.db
unfolding check_assigner
check_assigner_reads env acc changed w = ground arith

module _ (env : Env) (acc : ProjectAccess) (name : String) (t : Uuid) (added removed : List Uuid)
    (w : World) where
  tell_all_reads : (w' : World) → (for_each (tell_added env acc name) added w').1.db ≡ w'.db
  tell_all_reads w' =
      for_each_rule (λ v. v.db ≡ w'.db) (tell_added env acc name)
        (λ i v h. tell_added_reads env acc name i v ∙ h) added w' refl

  granted-apply :
      (t' u' : Uuid)
      → (apply_assignees env acc name t added removed w).0 ≡ ok tt
      → granted (apply_assignees env acc name t added removed w).1.db.grants t' u' ≡ (
          (granted w.db.grants t' u' || (t == t' && contains u' added))
          && not (t == t' && contains u' removed))
  unfolding apply_assignees
  granted-apply t' u' h =
      let (_, first, rest) =
        bind-ok (for_each (assign env t) added)
          (λ _. for_each (unassign env t) removed >> for_each (tell_added env acc name) added) w
          h in
      let w1 = (for_each (assign env t) added w).1 in
      let (_, second, last) =
        bind-ok (for_each (unassign env t) removed) (λ _. for_each (tell_added env acc name) added)
          w1 rest in
      let w2 = (for_each (unassign env t) removed w1).1 in
      rw
        (
          bind_of_ok (for_each (assign env t) added)
              (λ _. for_each (unassign env t) removed >> for_each (tell_added env acc name) added) w
              tt first,
          bind_of_ok (for_each (unassign env t) removed)
              (λ _. for_each (tell_added env acc name) added) w1 tt second,
          tell_all_reads w2,
        )
        (ground (
          arith,
          granted-assign_all env t added w first t' u',
          granted-unassign_all env t removed w1 second t' u',
        ))

module _ (env : Env) (acc : ProjectAccess) (name : String) (ids : List Uuid) (w : World)
    (task : Task) (found : find (is_named acc.project.id name) w.db.tasks ≡ some task) where
  -- When `SetAssignees` succeeds, whatever else the database answered, the users with a grant on
  -- the task are exactly the listed ones, and no other task's grants have changed hands. A user who is
  -- not listed loses the grant whatever its role, so also one that `Grant` gave as viewer or operator.
  pub granted-set_assignees :
      (set_assignees env acc name ids w).0 ≡ ok tt
      → (task_id user_id : Uuid)
      → granted (set_assignees env acc name ids w).1.db.grants task_id user_id
        ≡ (if task_id == task.id then contains user_id ids else granted w.db.grants task_id user_id)
  unfolding set_assignees Store.Tasks.get_by_name Store.Grants.list_for_task
  granted-set_assignees h t' u' =
      let current = keep (λ (g : TaskGrant). g.task_id == task.id) w.db.grants in
      let added = added_ids (map (λ (g : TaskGrant). g.user_id) current) [] ids in
      let removed = removed_ids ids current in
      let w2 : World = record w { tick = suc (suc w.tick) } in
      let w3 = (check_assigner env acc (added ++ removed) w2).1 in
      ground (
        arith,
        check_assigner_reads env acc (added ++ removed) w2,
        granted-apply env acc name task.id added removed w3 t' u',
        contains-added_ids (map (λ (g : TaskGrant). g.user_id) current) u' [] ids,
        contains-removed_ids ids u' current,
        contains-current task.id u' w.db.grants,
      )

  -- A caller below owner whose membership of the project ranks below member is refused, and no
  -- table changes: a grant on the task does not let its holder pass the task on.
  pub set_assignees-below_member :
      is_owner acc.role ≡ false
      → leb 3 (
          rank (
            role_of
              (keep (λ (m : ProjectMember). m.project_id == acc.project.id) w.db.members)
              acc.user_id))
        ≡ false
      → ((set_assignees env acc name ids w).1.db ≡ w.db)
        × ((set_assignees env acc name ids w).0 ≢ ok tt)
  unfolding set_assignees check_assigner rank Store.Tasks.get_by_name Store.Grants.list_for_task
      Store.Members.list_members
  set_assignees-below_member o r = (ground arith, ground arith)

-- No grant holds owner, an absent role or an unknown one.
abbrev pub all_grantable : List TaskGrant → Bool
all_grantable rows = all (λ g. is_grantable g.role) rows

all_grantable-upsert :
    (g : TaskGrant) (rows : List TaskGrant)
    → is_grantable g.role ≡ true
    → all_grantable rows ≡ true
    → all_grantable (upsert g rows) ≡ true
all_grantable-upsert g rows r h = ground (arith, change_all rows h, concat_all rows h)
  where
    change_all :
        (rows' : List TaskGrant)
        → all_grantable rows' ≡ true
        → all_grantable (change (is_grant g.task_id g.user_id) (set_role g.role) rows') ≡ true
    change_all [] k = k
    change_all (x ∷ rows') k = ground (arith, r, change_all rows')

    concat_all :
        (rows' : List TaskGrant)
        → all_grantable rows' ≡ true
        → all_grantable (rows' ++ g ∷ []) ≡ true
    concat_all [] k = ground (arith, r)
    concat_all (x ∷ rows') k = ground (arith, r, concat_all rows')

all_grantable-keep :
    (p : TaskGrant → Bool) (rows : List TaskGrant)
    → all_grantable rows ≡ true
    → all_grantable (keep p rows) ≡ true
all_grantable-keep p [] h = h
all_grantable-keep p (x ∷ rows) h = ground (arith, all_grantable-keep p rows)

abbrev OnlyGrantable : World → Type 0
OnlyGrantable w = all_grantable w.db.grants ≡ true

module _ (env : Env) (t : Uuid) where
  assign-grantable : (i : Uuid) (w : World) → OnlyGrantable w → OnlyGrantable (assign env t i w).1
  unfolding assign Store.Grants.grant rank
  assign-grantable i w h = ground (arith, all_grantable-upsert (member_grant t i) w.db.grants)

  unassign-grantable :
      (i : Uuid) (w : World) → OnlyGrantable w → OnlyGrantable (unassign env t i w).1
  unfolding unassign Store.Grants.revoke
  unassign-grantable i w h =
      ground (arith, all_grantable-keep (λ g. not (is_grant t i g)) w.db.grants)

apply-grantable :
    (env : Env) (acc : ProjectAccess) (name : String) (t : Uuid) (added removed : List Uuid)
    (w : World)
    → OnlyGrantable w
    → OnlyGrantable (apply_assignees env acc name t added removed w).1
unfolding apply_assignees
apply-grantable env acc name t added removed w h =
    let w1 = (for_each (assign env t) added w).1 in
    let h1 : OnlyGrantable w1 =
      for_each_rule OnlyGrantable (assign env t) (assign-grantable env t) added w h in
    let w2 = (for_each (unassign env t) removed w1).1 in
    let h2 : OnlyGrantable w2 =
      for_each_rule OnlyGrantable (unassign env t) (unassign-grantable env t) removed w1 h1 in
    bind_rule OnlyGrantable (for_each (assign env t) added)
      (λ _. for_each (unassign env t) removed >> for_each (tell_added env acc name) added) w h1
      λ _ _.
        bind_rule OnlyGrantable (for_each (unassign env t) removed)
          (λ _. for_each (tell_added env acc name) added) w1 h2
          λ _ _. rw (tell_all_reads env acc name t added removed w2 w2) h2

module _ (env : Env) (w : World) (only : OnlyGrantable w) where
  grant_stays :
      (slug name : String) (user_id : Uuid) (role : ProjectRole)
      → OnlyGrantable (grant env slug name user_id role w).1
  unfolding grant get_task tell_assignee Store.Grants.grant rank
  grant_stays slug name user_id role = elim (Result-cases (get_task env slug name w).0) [
    | inl (found, e) ↦
        let g : TaskGrant = record { task_id = found.0.id; user_id = user_id; role = role } in
        ground (arith, e, get_task_reads env slug name w, all_grantable-upsert g w.db.grants)
    | inr (x, e) ↦ ground (arith, e, get_task_reads env slug name w)
  ]

  set_stays :
      (acc : ProjectAccess) (name : String) (ids : List Uuid)
      → OnlyGrantable (set_assignees env acc name ids w).1
  unfolding set_assignees Store.Tasks.get_by_name Store.Grants.list_for_task
  set_stays acc name ids = elim (Option-cases (find (is_named acc.project.id name) w.db.tasks)) [
    | inl e ↦ ground (arith, e)
    | inr (task, e) ↦
        let current = keep (λ (g : TaskGrant). g.task_id == task.id) w.db.grants in
        let added = added_ids (map (λ (g : TaskGrant). g.user_id) current) [] ids in
        let removed = removed_ids ids current in
        let w2 : World = record w { tick = suc (suc w.tick) } in
        let w3 = (check_assigner env acc (added ++ removed) w2).1 in
        ground (
          arith,
          check_assigner_reads env acc (added ++ removed) w2,
          apply-grantable env acc name task.id added removed w3,
        )
  ]

  -- If every grant in the table is viewer, operator or member, so is every grant after `Grant`, on
  -- any arguments, and after `SetAssignees`.
  pub grants_stay_grantable :
      ((slug name : String) (user_id : Uuid) (role : ProjectRole)
        → OnlyGrantable (grant env slug name user_id role w).1)
      × ((acc : ProjectAccess) (name : String) (ids : List Uuid)
          → OnlyGrantable (set_assignees env acc name ids w).1)
  grants_stay_grantable = (grant_stays, set_stays)
