-- ===== src/Project/Fleet/Laws.antt =====
-- What the fleet shows of a task, and what a request on it may do.
use mathlib.Core.List.{Memᴰ}
use mathlib.Core.Path.{subst, subst⁻¹}
use boreas.Prelude.{
  String, ◌≡◌, refl, sym, ◌∙◌, inl, inr, true, false, not, Option, none, some, List, [], ◌∷◌, ◌⊎◌,
  Bool, if◌then◌else◌, all, find, keep, is_some, ◌==◌, arith, Option-cases,
}
use boreas.Prelude.Text.{is_empty}
use boreas.Prelude.Find.{find_sound, all_sound}
use boreas.Core.Errors.{ok}
use boreas.Core.Roles.{max, is_grantable}
use boreas.Core.Model.{Uuid, User, Project, ProjectMember, ProjectAccess, Task, TaskGrant, is_admin}
use boreas.Store
use boreas.Store.Db.{Db}
use boreas.Store.Projects.{find_member, any_grant, access_row, rows_for_user}
use boreas.Store.Grants.{role_or_absent, is_grant_on}
use boreas.App.{Env, World, query}
use boreas.App.Laws.{bind-ok}
use boreas.Project.Access.{access}
use boreas.Project.Access.Laws.{effective_role, member_role, access_ok}
use boreas.Project.Fleet.{
  FleetTask, reach, grant_of, fleet_row, fleet_rows, list, granted_roles, tasks_with_deploys, fleet,
}
use boreas.Project.Fleet.Rows.{
  AreNamed, seen_role, reach_role, grant_of-named, max-granted, fleet_row_task, fleet_rows_sound,
}

module _ (env : Env) (actor : User) (w : World) where
  list_ok :
      (accesses : List ProjectAccess)
      → is_admin actor ≡ false
      → (list env actor w).0 ≡ ok accesses
      → (accesses ≡ rows_for_user actor.id w.db w.db.projects) × ((list env actor w).1.db ≡ w.db)
  unfolding list query Store.Projects.list_for_user
  list_ok accesses plain h = ground (arith, plain, h)

  granted_roles_ok :
      (grants : List TaskGrant)
      → (granted_roles env actor.id w).0 ≡ ok grants
      → (grants ≡ keep (λ g. g.user_id == actor.id) w.db.grants)
        × ((granted_roles env actor.id w).1.db ≡ w.db)
  unfolding granted_roles query Store.Grants.for_user
  granted_roles_ok grants h = ground (arith, h)

  tasks_ok : (tasks : List Task) → (tasks_with_deploys env w).0 ≡ ok tasks → tasks ≡ w.db.tasks
  unfolding tasks_with_deploys query Store.Tasks.list_all
  tasks_ok tasks h = ground (arith, h)

fleet_ok :
    (env : Env) (actor : User) (w : World) (accesses : List ProjectAccess) (rows : List FleetTask)
    → is_admin actor ≡ false
    → (fleet env actor w).0 ≡ ok (accesses, rows)
    → rows
      ≡ fleet_rows
          (rows_for_user actor.id w.db w.db.projects)
          (keep (λ g. g.user_id == actor.id) w.db.grants)
          w.db.tasks
unfolding fleet
fleet_ok env actor w accesses rows plain h =
    let (reached, first, rest) = bind-ok (list env actor) _ w h in
    let w1 = (list env actor w).1 in
    let (grants, second, rest2) = bind-ok (granted_roles env actor.id) _ w1 rest in
    let w2 = (granted_roles env actor.id w1).1 in
    let (tasks, third, last) = bind-ok (tasks_with_deploys env) _ w2 rest2 in
    let (a, b) = list_ok env actor w reached plain first in
    let (c, d) = granted_roles_ok env actor w1 grants second in
    let e = tasks_ok env actor w2 tasks third in
    let f : rows ≡ fleet_rows reached grants tasks = ground (arith, last) in
    f ∙ rw (a, c, e, d, b) refl

-- A membership of the user in the project is stored.
abbrev pub IsMemberOf : Db → Uuid → Uuid → Type 0
IsMemberOf db user_id project_id =
    (m : ProjectMember) × Memᴰ m db.members × (m.project_id ≡ project_id) × (m.user_id ≡ user_id)

access_row-IsMemberOf :
    (user_id : Uuid) (db : Db) (p : Project) (m : Option ProjectMember)
    → m ≡ find_member p.id user_id db
    → (access_row user_id p m).all_tasks ≡ true
    → IsMemberOf db user_id (access_row user_id p m).project.id
access_row-IsMemberOf user_id db p none e h = cc
access_row-IsMemberOf user_id db p (some m) e h =
    let (n, q) = find_sound _ db.members m (sym e) in (m, n, ground (arith, q), ground (arith, q))

rows_for_user_cons :
    (b : Bool) (a x : ProjectAccess) (rows : List ProjectAccess)
    → Memᴰ x (if b then a ∷ rows else rows)
    → (x ≡ a) ⊎ Memᴰ x rows
rows_for_user_cons true a x rows (Memᴰ.head e) = inl e
rows_for_user_cons true a x rows (Memᴰ.tail m) = inr m
rows_for_user_cons false a x rows m = inr m

rows_for_user-IsMemberOf :
    (user_id : Uuid) (db : Db) (ps : List Project) (x : ProjectAccess)
    → Memᴰ x (rows_for_user user_id db ps)
    → x.all_tasks ≡ true
    → IsMemberOf db user_id x.project.id
unfolding rows_for_user
rows_for_user-IsMemberOf user_id db [] x m h = elim m [ ]
rows_for_user-IsMemberOf user_id db (p ∷ ps) x m h =
    elim (rows_for_user_cons _ (access_row user_id p (find_member p.id user_id db)) x _ m) [
      | inl e ↦
          let found = find_member p.id user_id db in
          subst⁻¹ (λ y. IsMemberOf db user_id y.project.id) e
            (access_row-IsMemberOf user_id db p found refl (rw (← e) h))
      | inr n ↦ rows_for_user-IsMemberOf user_id db ps x n h
    ]

-- Where the fleet shows all tasks of a project to a user who is no administrator, a membership of the
-- user in it is stored.
pub fleet-IsMemberOf :
    (env : Env) (actor : User) (w : World) (accesses : List ProjectAccess) (rows : List FleetTask)
    (x : ProjectAccess)
    → is_admin actor ≡ false
    → (fleet env actor w).0 ≡ ok (accesses, rows)
    → Memᴰ x accesses
    → x.all_tasks ≡ true
    → IsMemberOf w.db actor.id x.project.id
unfolding fleet
fleet-IsMemberOf env actor w accesses rows x plain h m t =
    let (reached, first, rest) = bind-ok (list env actor) _ w h in
    let w1 = (list env actor w).1 in
    let (grants, second, rest2) = bind-ok (granted_roles env actor.id) _ w1 rest in
    let w2 = (granted_roles env actor.id w1).1 in
    let (tasks, third, last) = bind-ok (tasks_with_deploys env) _ w2 rest2 in
    let same : reached ≡ accesses = ground (arith, last) in
    let a = (list_ok env actor w reached plain first).0 in
    rows_for_user-IsMemberOf actor.id w.db w.db.projects x (subst (Memᴰ x) (sym same ∙ a) m) t

-- The role in a row, from the membership and the grant.
role_of_row :
    (m : Option ProjectMember) (g : Option TaskGrant) (acc : ProjectAccess) (t : Task)
    (row : FleetTask)
    → acc.role ≡ seen_role m
    → acc.all_tasks ≡ is_some m
    → ((x : TaskGrant) → g ≡ some x → is_grantable x.role ≡ true)
    → fleet_row (some acc) g t ≡ some row
    → row.role ≡ max (member_role m) (role_or_absent g)
role_of_row none none acc t row r a k h = ground (arith, r, a, h)
role_of_row none (some x) acc t row r a k h = ground (arith, r, a, h, max-granted x.role (k x refl))
role_of_row (some m) g acc t row r a k h = ground (arith, r, a, h)

grantable_of :
    (db : Db) (user_id : Uuid) (t : Task)
    → all (λ g. is_grantable g.role) db.grants ≡ true
    → (x : TaskGrant) → find (is_grant_on t.project_id user_id t.name db.tasks) db.grants ≡ some x
    → is_grantable x.role ≡ true
grantable_of db user_id t h x e =
    let (m, q) = find_sound (is_grant_on t.project_id user_id t.name db.tasks) db.grants x e in
    all_sound (λ g. is_grantable g.role) m h

-- The row of a task has the role that the tables give the user on that task.
row_role :
    (db : Db) (user_id : Uuid) (t : Task) (row : FleetTask)
    → AreNamed db.tasks
    → all (λ g. is_grantable g.role) db.grants ≡ true
    → Memᴰ t db.tasks
    → is_empty t.name ≡ false
    → fleet_row
        (reach (rows_for_user user_id db db.projects) t.project_id)
        (grant_of (keep (λ g. g.user_id == user_id) db.grants) t.id)
        t
      ≡ some row
    → row.role ≡ effective_role db t.project_id user_id t.name
row_role db user_id t row named grantable m filled h =
    let own = find (is_grant_on t.project_id user_id t.name db.tasks) db.grants in
    let reached = reach (rows_for_user user_id db db.projects) t.project_id in
    let same = grant_of-named db user_id t named m in
    let k : fleet_row reached own t ≡ some row = rw (← same) h in
    elim (Option-cases reached) [
      | inl n ↦ ground (arith, n, k)
      | inr (acc, e) ↦
          let (role, every) = reach_role db user_id db.projects t.project_id acc e in
          let r =
            role_of_row (find_member t.project_id user_id db) own acc t row role every
              (grantable_of db user_id t grantable)
              (subst (λ r. fleet_row r own t ≡ some row) e k) in
          ground (arith, r, filled)
    ]

effective_role_of :
    (db : Db) (user_id : Uuid) (shown t : Task) (project_id : Uuid)
    → shown ≡ t
    → project_id ≡ shown.project_id
    → effective_role db project_id user_id shown.name
      ≡ effective_role db t.project_id user_id t.name
effective_role_of db user_id shown t project_id it p = rw (p, it) refl

-- The fleet of a user who is no administrator shows stored tasks, each with the role that `Access`
-- gives the user on that task wherever it lets the user in, if grants hold grantable roles, no two
-- tasks of a project share a name and none has the empty one.
pub fleet-access :
    (env : Env) (actor : User) (w : World) (accesses : List ProjectAccess) (rows : List FleetTask)
    → AreNamed w.db.tasks
    → all (λ g. is_grantable g.role) w.db.grants ≡ true
    → all (λ t. not (is_empty t.name)) w.db.tasks ≡ true
    → is_admin actor ≡ false
    → (fleet env actor w).0 ≡ ok (accesses, rows)
    → (row : FleetTask) → Memᴰ row rows
    → Memᴰ row.task w.db.tasks
      × ((slug : String) (acc : ProjectAccess)
          → (access env actor slug row.task.name w).0 ≡ ok acc
          → acc.project.id ≡ row.task.project_id
          → acc.role ≡ row.role)
fleet-access env actor w accesses rows named grantable filled plain h row m =
    let reached = rows_for_user actor.id w.db w.db.projects in
    let grants = keep (λ g. g.user_id == actor.id) w.db.grants in
    let same = fleet_ok env actor w accesses rows plain h in
    let (t, n, e) = fleet_rows_sound reached grants w.db.tasks row (rw (← same) m) in
    let it = fleet_row_task (reach reached t.project_id) (grant_of grants t.id) t row e in
    let has_name = all_sound (λ t. not (is_empty t.name)) n filled in
    let role = row_role w.db actor.id t row named grantable n (ground (arith, has_name)) e in
    (
      rw it n,
      λ slug acc k p.
          let asked = (access_ok env w actor slug row.task.name acc k plain).0 in
          let same_task = effective_role_of w.db actor.id row.task t acc.project.id it p in
          asked ∙ same_task ∙ sym role,
    )
