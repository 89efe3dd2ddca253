-- ===== src/Project/Grants/Loops.antt =====
-- The loops of `SetAssignees`: which grants there are after each.
use boreas.Prelude.{
  String, ◌≡◌, refl, Bool, true, not, ◌&&◌, ◌||◌, List, [], ◌∷◌, ◌++◌, map, any, keep, change,
  arith, ◌==◌,
}
use boreas.Core.Errors.{ok}
use boreas.Core.Roles.{ProjectRole}
use boreas.Core.Model.{Uuid, TaskGrant, ProjectAccess}
use boreas.Store.Grants.{is_grant, set_role, upsert}
use boreas.Store
use boreas.App.{Env, World, for_each}
use boreas.App.Laws.{for_each-ok}
use boreas.Project.Grants.{
  contains, member_grant, added_ids, removed_ids, assign, unassign, tell_assignee, tell_added,
}

abbrev pub granted : List TaskGrant → Uuid → Uuid → Bool
granted rows task_id user_id = any (is_grant task_id user_id) rows

module _ (t u t' u' : Uuid) where
  granted-change :
      (role : ProjectRole) (rows : List TaskGrant)
      → granted (change (is_grant t u) (set_role role) rows) t' u' ≡ granted rows t' u'
  granted-change role [] = refl
  granted-change role (g ∷ rows) = ground (arith, granted-change role rows)

  granted-concat :
      (g : TaskGrant) (rows : List TaskGrant)
      → granted (rows ++ g ∷ []) t' u' ≡ (granted rows t' u' || is_grant t' u' g)
  granted-concat g [] = ground arith
  granted-concat g (h ∷ rows) = ground (arith, granted-concat g rows)

  granted_same :
      (rows : List TaskGrant)
      → granted rows t u ≡ true
      → t ≡ t'
      → u ≡ u'
      → granted rows t' u' ≡ true
  granted_same rows h e f = ground arith

  pub granted-keep :
      (rows : List TaskGrant)
      → granted (keep (λ g. not (is_grant t u g)) rows) t' u'
        ≡ (granted rows t' u' && not (t == t' && u == u'))
  granted-keep [] = refl
  granted-keep (g ∷ rows) = ground (arith, granted-keep rows)

pub granted-upsert :
    (g : TaskGrant) (rows : List TaskGrant) (t' u' : Uuid)
    → granted (upsert g rows) t' u' ≡ (granted rows t' u' || (g.task_id == t' && g.user_id == u'))
granted-upsert g rows t' u' = ground (
  arith,
  granted-change g.task_id g.user_id t' u' g.role rows,
  granted-concat g.task_id g.user_id t' u' g rows,
  granted_same g.task_id g.user_id t' u' rows,
)

module _ (env : Env) (t : Uuid) where
  granted-assign :
      (i : Uuid) (w : World)
      → (assign env t i w).0 ≡ ok tt
      → (t' u' : Uuid)
      → granted (assign env t i w).1.db.grants t' u'
        ≡ (granted w.db.grants t' u' || (t == t' && i == u'))
  unfolding assign Store.Grants.grant
  granted-assign i w h t' u' = ground (arith, granted-upsert (member_grant t i) w.db.grants t' u')

  granted-unassign :
      (i : Uuid) (w : World)
      → (unassign env t i w).0 ≡ ok tt
      → (t' u' : Uuid)
      → granted (unassign env t i w).1.db.grants t' u'
        ≡ (granted w.db.grants t' u' && not (t == t' && i == u'))
  unfolding unassign Store.Grants.revoke
  granted-unassign i w h t' u' =
      ground (arith, granted-keep t i t' u' w.db.grants, granted_same t i t' u' w.db.grants)

  pub granted-assign_all :
      (ids : List Uuid) (w : World)
      → (for_each (assign env t) ids w).0 ≡ ok tt
      → (t' u' : Uuid)
      → granted (for_each (assign env t) ids w).1.db.grants t' u'
        ≡ (granted w.db.grants t' u' || (t == t' && contains u' ids))
  unfolding for_each
  granted-assign_all [] w h t' u' = ground arith
  granted-assign_all (i ∷ ids) w h t' u' =
      let (first, others, eq) = for_each-ok (assign env t) i ids w h in
      rw eq (
        ground (
          arith,
          granted-assign i w first t' u',
          granted-assign_all ids (assign env t i w).1 others t' u',
        ))

  pub granted-unassign_all :
      (ids : List Uuid) (w : World)
      → (for_each (unassign env t) ids w).0 ≡ ok tt
      → (t' u' : Uuid)
      → granted (for_each (unassign env t) ids w).1.db.grants t' u'
        ≡ (granted w.db.grants t' u' && not (t == t' && contains u' ids))
  unfolding for_each
  granted-unassign_all [] w h t' u' = ground arith
  granted-unassign_all (i ∷ ids) w h t' u' =
      let (first, others, eq) = for_each-ok (unassign env t) i ids w h in
      rw eq (
        ground (
          arith,
          granted-unassign i w first t' u',
          granted-unassign_all ids (unassign env t i w).1 others t' u',
        ))

-- Telling changes no table.
pub tell_added_reads :
    (env : Env) (acc : ProjectAccess) (name : String) (i : Uuid) (w : World)
    → (tell_added env acc name i w).1.db ≡ w.db
unfolding tell_added tell_assignee
tell_added_reads env acc name i w = ground arith

contains_same : (i u : Uuid) (ids : List Uuid) → i ≡ u → contains i ids ≡ contains u ids
contains_same i u ids e = rw e

module _ (had : List Uuid) (u : Uuid) where
  -- An id is to be added exactly when it is listed, has no grant and was not met before.
  pub contains-added_ids :
      (seen ids : List Uuid)
      → contains u (added_ids had seen ids)
        ≡ (contains u ids && not (contains u seen) && not (contains u had))
  unfolding added_ids
  contains-added_ids seen [] = refl
  contains-added_ids seen (i ∷ ids) =
      ground
        (arith, contains-added_ids (i ∷ seen) ids, contains_same i u seen, contains_same i u had)

pub contains-removed_ids :
    (ids : List Uuid) (u : Uuid) (current : List TaskGrant)
    → contains u (removed_ids ids current)
      ≡ (contains u (map (λ g. g.user_id) current) && not (contains u ids))
unfolding removed_ids
contains-removed_ids ids u [] = refl
contains-removed_ids ids u (g ∷ current) =
    ground (arith, contains-removed_ids ids u current, contains_same g.user_id u ids)

-- The rows of a task are those that `ListForTask` reads.
pub contains-current :
    (t u : Uuid) (rows : List TaskGrant)
    → contains u (map (λ g. g.user_id) (keep (λ g. g.task_id == t) rows)) ≡ granted rows t u
contains-current t u [] = refl
contains-current t u (g ∷ rows) = ground (arith, contains-current t u rows)
