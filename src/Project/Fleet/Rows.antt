-- ===== src/Project/Fleet/Rows.antt =====
-- The rows of a fleet: which membership and which grant each comes from.
use mathlib.Core.List.{Memᴰ}
use text.Mathlib.Text.{◌==◌ as text_eq}
use text.Mathlib.TextPositions.{eq_refl}
use boreas.Prelude.{
  ◌≡◌, refl, sym, ap, ◌∙◌, inl, inr, ◌⊎◌, Bool, true, ◌&&◌, Option, none, some, List, [], ◌∷◌, any,
  find, keep, is_some, ◌==◌, arith, Bool-cases, Option-cases,
}
use boreas.Prelude.Find.{any_sound, any_complete}
use boreas.Core.Roles.{ProjectRole, absent, viewer, max, is_grantable}
use boreas.Core.Model.{Uuid, Project, ProjectMember, ProjectAccess, Task, TaskGrant}
use boreas.Store.Db.{Db}
use boreas.Store.Projects.{find_member, rows_for_user}
use boreas.Store.Grants.{is_grant_on}
use boreas.Project.Fleet.{FleetTask, reach, grant_of, fleet_row, fleet_rows}

module _ {A : Type 0} where
  find-keep : (p q : A → Bool) (xs : List A) → find p (keep q xs) ≡ find (λ x. q x && p x) xs
  find-keep p q [] = refl
  find-keep p q (x ∷ xs) = ground (arith, find-keep p q xs)

  find-eq : (p q : A → Bool) (xs : List A) → ((x : A) → p x ≡ q x) → find p xs ≡ find q xs
  find-eq p q [] h = refl
  find-eq p q (x ∷ xs) h = ground (arith, h x, find-eq p q xs h)

-- Tasks of one project have different names.
abbrev pub AreNamed : List Task → Type 0
AreNamed tasks =
    (t u : Task)
    → Memᴰ t tasks
    → Memᴰ u tasks
    → u.project_id ≡ t.project_id
    → text_eq u.name t.name ≡ true
    → u.id ≡ t.id

abbrev pub seen_role : Option ProjectMember → ProjectRole
seen_role none = viewer
seen_role (some m) = m.role

module _ (db : Db) (user_id : Uuid) where
  pub reach_role :
      (ps : List Project) (project_id : Uuid) (acc : ProjectAccess)
      → reach (rows_for_user user_id db ps) project_id ≡ some acc
      → (acc.role ≡ seen_role (find_member project_id user_id db))
        × (acc.all_tasks ≡ is_some (find_member project_id user_id db))
  unfolding rows_for_user
  reach_role [] project_id acc h = cc
  reach_role (p ∷ ps) project_id acc h = elim (Bool-cases (p.id == project_id)) [
    | inr e ↦ ground (arith, e, h, reach_role ps project_id acc)
    | inl e ↦
        let same : p.id ≡ project_id = ground arith in
        elim (Option-cases (find_member project_id user_id db)) [
          | inr (m, f) ↦ ground (arith, e, h, same, f)
          | inl n ↦ ground (arith, e, h, same, n, reach_role ps project_id acc)
        ]
  ]

  -- A grant is on a task by its id if it is by its name.
  on_task :
      (t : Task) (g : TaskGrant)
      → AreNamed db.tasks
      → Memᴰ t db.tasks
      → (g.user_id == user_id && g.task_id == t.id)
        ≡ is_grant_on t.project_id user_id t.name db.tasks g
  on_task t g named m =
      let is_it =
        λ (u : Task). u.id == g.task_id && u.project_id == t.project_id && text_eq u.name t.name in
      elim (Bool-cases (any is_it db.tasks)) [
        | inl e ↦ let (u, n, q) = any_sound is_it db.tasks e in ground (arith, e, q, named t u m n)
        | inr e ↦
            let q : is_it t ≡ true → any is_it db.tasks ≡ true = any_complete is_it m in
            ground (arith, e, q, eq_refl t.name)
      ]

  -- The grant on a task, by its id and by its name.
  pub grant_of-named :
      (t : Task)
      → AreNamed db.tasks
      → Memᴰ t db.tasks
      → grant_of (keep (λ g. g.user_id == user_id) db.grants) t.id
        ≡ find (is_grant_on t.project_id user_id t.name db.tasks) db.grants
  grant_of-named t named m =
      find-keep (λ g. g.task_id == t.id) (λ g. g.user_id == user_id) db.grants
      ∙ find-eq _ _ db.grants (λ g. on_task t g named m)

-- Joined with a grant, a viewer is as good as no role.
pub max-granted : (g : ProjectRole) → is_grantable g ≡ true → max viewer g ≡ max absent g
unfolding max
max-granted g h = ground arith

pub fleet_row_task :
    (acc : Option ProjectAccess) (g : Option TaskGrant) (t : Task) (row : FleetTask)
    → fleet_row acc g t ≡ some row
    → row.task ≡ t
fleet_row_task none g t row h = cc
fleet_row_task (some acc) g t row h = ground (arith, h)

row_or_rest :
    (o : Option FleetTask) (rest : List FleetTask) (row : FleetTask)
    → Memᴰ row (elim o [ none ↦ rest | some r ↦ r ∷ rest ])
    → (o ≡ some row) ⊎ Memᴰ row rest
row_or_rest none rest row m = inr m
row_or_rest (some r) rest row (Memᴰ.head e) = inl (ap some (sym e))
row_or_rest (some r) rest row (Memᴰ.tail m) = inr m

pub fleet_rows_sound :
    (accesses : List ProjectAccess) (grants : List TaskGrant) (ts : List Task) (row : FleetTask)
    → Memᴰ row (fleet_rows accesses grants ts)
    → (t : Task) × Memᴰ t ts
      × (fleet_row (reach accesses t.project_id) (grant_of grants t.id) t ≡ some row)
unfolding fleet_rows
fleet_rows_sound accesses grants [] row m = elim m [ ]
fleet_rows_sound accesses grants (t ∷ ts) row m =
    let own = fleet_row (reach accesses t.project_id) (grant_of grants t.id) t in
    elim (row_or_rest own (fleet_rows accesses grants ts) row m) [
      | inl e ↦ (t, Memᴰ.head refl, e)
      | inr n ↦ let (u, k, e) = fleet_rows_sound accesses grants ts row n in (u, Memᴰ.tail k, e)
    ]
