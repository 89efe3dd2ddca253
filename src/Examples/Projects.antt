-- ===== src/Examples/Projects.antt =====
-- Access, grants and owners at concrete inputs.
use boreas.Prelude.{
  ℕ, ◌≤◌, String, ◌≡◌, ◌≢◌, refl, true, List, [], ◌∷◌, count, arith, find, if◌then◌else◌, ◌==◌,
}
use boreas.Core.Errors.{ok}
use boreas.Core.Names.{validate_project_slug}
use boreas.Core.Roles.{ProjectRole, owner, viewer, operator, rank, max}
use boreas.Core.Model.{ProjectAccess}
use boreas.Store.Members.{is_member}
use boreas.Store
use boreas.App.{Env, World}
use boreas.Project.Access.{access}
use boreas.Project.Access.Laws.{access-role, IsProjectAt, IsHigher, member_role, grant_part}
use boreas.Project.Grants.{set_assignees, grant, contains}
use boreas.Project.Grants.Loops.{granted}
use boreas.Project.Grants.Laws.{
  granted-set_assignees, set_assignees-below_member, grants_stay_grantable, all_grantable,
}
use boreas.Project.Members.{add_member, remove_member}
use boreas.Project.Members.Owners.{has_owner}
use boreas.Project.Members.Laws.{add_member-has_owner, remove_member-has_owner}
use boreas.Examples.Data.{quiet, world, bo, shop, cart, db}

abbrev bo_on_cart : ProjectAccess
bo_on_cart = record { project = shop; user_id = 2; role = operator; all_tasks = true }

access-role_example :
    IsProjectAt db "shop" shop
    × IsHigher (member_role (find (is_member 20 2) db.members)) (grant_part db 20 2 "cart") operator
unfolding access validate_project_slug max Store.Projects.get_by_slug Store.Members.get_member
    Store.Grants.role
access-role_example = access-role quiet world bo "shop" "cart" bo_on_cart refl refl

abbrev ana_access : ProjectAccess
ana_access = record { project = shop; user_id = 1; role = owner; all_tasks = true }

granted-set_assignees_example :
    granted (set_assignees quiet ana_access "cart" (3 ∷ []) world).1.db.grants 30 3
    ≡ (if 30 == 30 then contains 3 (3 ∷ []) else granted db.grants 30 3)
unfolding set_assignees Store.Tasks.get_by_name Store.Grants.list_for_task
    Store.Members.list_members Store.Grants.grant Store.Grants.revoke
    boreas.Project.Grants.check_assigner boreas.Project.Grants.apply_assignees boreas.App.for_each
    boreas.Project.Grants.added_ids boreas.Project.Grants.assign boreas.Project.Grants.removed_ids
    boreas.Project.Grants.unassign boreas.Project.Grants.tell_added
granted-set_assignees_example =
    granted-set_assignees quiet ana_access "cart" (3 ∷ []) world cart refl refl 30 3

set_assignees-below_member_example :
    ((set_assignees quiet bo_on_cart "cart" (3 ∷ []) world).1.db ≡ db)
    × ((set_assignees quiet bo_on_cart "cart" (3 ∷ []) world).0 ≢ ok tt)
unfolding rank boreas.Project.Grants.role_of
set_assignees-below_member_example =
    set_assignees-below_member quiet bo_on_cart "cart" (3 ∷ []) world cart refl refl refl

grants_stay_grantable_example :
    ((slug name : String) (user_id : ℕ) (role : ProjectRole)
      → all_grantable (grant quiet slug name user_id role world).1.db.grants ≡ true)
    × ((acc : ProjectAccess) (name : String) (ids : List ℕ)
        → all_grantable (set_assignees quiet acc name ids world).1.db.grants ≡ true)
unfolding rank
grants_stay_grantable_example = grants_stay_grantable quiet world refl

members_keyed : (project_id user_id : ℕ) → count (is_member project_id user_id) db.members ≤ 1
members_keyed project_id user_id = ground arith

add_member-has_owner_example :
    has_owner 20 (add_member quiet "shop" 1 viewer world).1.db.members ≡ true
add_member-has_owner_example =
    add_member-has_owner quiet world "shop" 1 20 members_keyed refl viewer

remove_member-has_owner_example :
    has_owner 20 (remove_member quiet "shop" 1 world).1.db.members ≡ true
remove_member-has_owner_example = remove_member-has_owner quiet world "shop" 1 20 members_keyed refl
