-- ===== src/Project/Members/Laws.antt =====
-- A project that has an owner keeps one, whatever members are added, demoted or removed.
use boreas.Prelude.{String, ◌≡◌, inl, inr, ◌⊎◌, true, false, List, arith, ◌==◌, any, Bool-cases}
use boreas.Core.Errors.{Err, ok}
use boreas.Core.Roles.{ProjectRole, is_owner}
use boreas.Core.Model.{Uuid, Project, ProjectMember}
use boreas.Store.Members.{is_member, upsert}
use boreas.Store
use boreas.App.{Env, World, App, exec, ◌>>=◌, ◌>>◌}
use boreas.App.Laws.{bind_rule}
use boreas.Project.Access.{get_project}
use boreas.Project.Access.Laws.{get_project_reads}
use boreas.Project.Members.{keep_owner, add_to_project, add_member, remove_member}
use boreas.Project.Members.Owners.{
  IsKeyed, has_owner, owned_by_other, sole_owner, change-has_owner, keep-has_owner,
  change-has_owner_ne, keep-has_owner_ne, change-owner, has_owner-concat, has_owner_of_other,
}

module _ (env : Env) (w : World) (project : Project) (user_id : Uuid) where
  keep_owner_reads : (keep_owner env project user_id w).1.db ≡ w.db
  unfolding keep_owner
  keep_owner_reads = ground arith

  -- `keepOwner` lets pass only where another user owns the project.
  keep_owner_ok :
      IsKeyed w.db.members
      → has_owner project.id w.db.members ≡ true
      → (keep_owner env project user_id w).0 ≡ ok tt
      → any (owned_by_other project.id user_id) w.db.members ≡ true
  unfolding keep_owner Store.Members.list_members
  keep_owner_ok keyed has h =
      elim (Bool-cases (any (owned_by_other project.id user_id) w.db.members)) [
        | inl e ↦ e
        | inr e ↦
            let (m, one, same) =
              sole_owner project.id user_id w.db.members (keyed project.id user_id) has e in
            ground (arith, one, same)
      ]

upsert-has_owner :
    (m : ProjectMember) (rows : List ProjectMember)
    → any (owned_by_other m.project_id m.user_id) rows ≡ true
    → has_owner m.project_id (upsert m rows) ≡ true
upsert-has_owner m rows h = ground (
  arith,
  change-has_owner m.project_id m.user_id rows m.role,
  has_owner-concat m.project_id rows m,
  has_owner_of_other m.project_id m.user_id rows,
)

upsert-has_owner_ne :
    (m : ProjectMember) (other : Uuid) (rows : List ProjectMember)
    → (other == m.project_id) ≡ false
    → has_owner other rows ≡ true
    → has_owner other (upsert m rows) ≡ true
upsert-has_owner_ne m other rows n h = ground (
  arith,
  change-has_owner_ne m.project_id m.user_id other rows m.role,
  has_owner-concat other rows m,
)

upsert-owner :
    (m : ProjectMember) (other : Uuid) (rows : List ProjectMember)
    → is_owner m.role ≡ true
    → has_owner other rows ≡ true
    → has_owner other (upsert m rows) ≡ true
upsert-owner m other rows o h =
    ground
      (arith, change-owner m.project_id m.user_id other rows m.role, has_owner-concat other rows m)

module _ (env : Env) (project : Project) (user_id other : Uuid) (w : World)
    (keyed : IsKeyed w.db.members) (has : has_owner other w.db.members ≡ true) where
  -- The write that follows a guard that let pass.
  upsert_rest :
      (m : ProjectMember)
      → (is_owner m.role ≡ true)
        ⊎ (other ≡ m.project_id → any (owned_by_other m.project_id m.user_id) w.db.members ≡ true)
      → has_owner other (exec env (Store.Members.add_member m) w).1.db.members ≡ true
  unfolding exec Store.Members.add_member
  upsert_rest m (inl o) = ground (arith, upsert-owner m other w.db.members)
  upsert_rest m (inr why) = elim (Bool-cases (other == m.project_id)) [
    | inl same ↦
        let e : other ≡ m.project_id = ground arith in
        let o : any (owned_by_other m.project_id m.user_id) w.db.members ≡ true = why e in
        ground (arith, upsert-has_owner m w.db.members)
    | inr ne ↦ ground (arith, upsert-has_owner_ne m other w.db.members)
  ]

  remove_rest :
      (other ≡ project.id → any (owned_by_other project.id user_id) w.db.members ≡ true)
      → has_owner other (exec env (Store.Members.remove_member project.id user_id) w).1.db.members
        ≡ true
  unfolding exec Store.Members.remove_member
  remove_rest why = elim (Bool-cases (other == project.id)) [
    | inl same ↦
        let e : other ≡ project.id = ground arith in
        let o : any (owned_by_other project.id user_id) w.db.members ≡ true = why e in
        ground (arith, keep-has_owner project.id user_id w.db.members)
    | inr ne ↦ ground (arith, keep-has_owner_ne project.id user_id other w.db.members)
  ]

abbrev StillOwned : Uuid → World → Type 0
StillOwned other w = has_owner other w.db.members ≡ true

module _ (env : Env) (w : World) (user_id other : Uuid) (keyed : IsKeyed w.db.members)
    (has : has_owner other w.db.members ≡ true) where
  -- `keepOwner`, then a write that keeps the owner once another user is known to own the project.
  guarded :
      (project : Project) (write : App Err (Unit {0}))
      → ((w' : World)
          → IsKeyed w'.db.members
          → StillOwned other w'
          → (other ≡ project.id → any (owned_by_other project.id user_id) w'.db.members ≡ true)
          → StillOwned other (write w').1)
      → StillOwned other ((keep_owner env project user_id >> write) w).1
  guarded project write keeps =
      let w' = (keep_owner env project user_id w).1 in
      let same : w'.db ≡ w.db = keep_owner_reads env w project user_id in
      bind_rule (StillOwned other) (keep_owner env project user_id) (λ _. write) w (rw same has)
        λ _ passed.
          keeps w' (rw same keyed) (rw same has)
            λ e. rw same (keep_owner_ok env w project user_id keyed (rw (← e) has) passed)

  add_rest :
      (role : ProjectRole) (project : Project)
      → StillOwned other (add_to_project env user_id role project w).1
  unfolding add_to_project
  add_rest role project = elim (Bool-cases (is_owner role)) [
    | inl o ↦ rw o (upsert_rest env project user_id other w keyed has _ (inl o))
    | inr o ↦
        rw o
          (guarded project _ λ w' k h why. upsert_rest env project user_id other w' k h _ (inr why))
  ]

module _ (env : Env) (w : World) (slug : String) (user_id other : Uuid)
    (keyed : IsKeyed w.db.members) (has : has_owner other w.db.members ≡ true) where
  -- A project that has an owner still has one after `RemoveMember`, whichever project and user it
  -- was called with and whatever the database answered, where no user is twice a member of a project.
  pub remove_member-has_owner :
      has_owner other (remove_member env slug user_id w).1.db.members ≡ true
  unfolding remove_member
  remove_member-has_owner =
      let w1 = (get_project env slug w).1 in
      let same : w1.db ≡ w.db = get_project_reads env slug w in
      bind_rule (StillOwned other) (get_project env slug) _ w (rw same has) λ project _.
        guarded env w1 user_id other (rw same keyed) (rw same has) project _
          λ w' k h why. remove_rest env project user_id other w' k h why

  get_then_add :
      (role : ProjectRole)
      → StillOwned other ((get_project env slug >>= add_to_project env user_id role) w).1
  get_then_add role =
      let w1 = (get_project env slug w).1 in
      let same : w1.db ≡ w.db = get_project_reads env slug w in
      bind_rule (StillOwned other) (get_project env slug) (add_to_project env user_id role) w
        (rw same has)
        λ project _. add_rest env w1 user_id other (rw same keyed) (rw same has) role project

  -- A project that has an owner still has one after `AddMember`, which also demotes, whichever
  -- project, user and role it was called with and whatever the database answered, where no user is
  -- twice a member of a project.
  pub add_member-has_owner :
      (role : ProjectRole)
      → has_owner other (add_member env slug user_id role w).1.db.members ≡ true
  unfolding add_member
  add_member-has_owner role = ground (arith, get_then_add role)
