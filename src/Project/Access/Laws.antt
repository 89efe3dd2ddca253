-- ===== src/Project/Access/Laws.antt =====
-- Who reaches a project or a task, and with which role.
use text.Mathlib.Text.{◌==◌ as text_eq}
use text.Mathlib.TextEquality.{eq_iff}
use mathlib.Core.Path.{subst}
use mathlib.Core.List.{Memᴰ}
use boreas.Prelude.{
  sym, ltb, Bool-cases, inl, inr, suc, ◌≤◌, ◌<◌, String, ◌≡◌, refl, ◌⊎◌, Bool, true, false, Option,
  none, some, arith, any, find, if◌then◌else◌,
}
use boreas.Prelude.Text.{is_empty}
use boreas.Prelude.Find.{find-none, find_sound}
use boreas.Core.Errors.{Err, Result-cases, ok, err, not_found, err_not_found, wrap}
use boreas.Core.Names.{validate_project_slug}
use boreas.Core.Roles.{ProjectRole, rank, rank-max, is_absent, absent, viewer, max}
use boreas.Core.Model.{Uuid, User, Project, ProjectMember, ProjectAccess, is_admin}
use boreas.Store.Db.{Db}
use boreas.Store.Projects.{any_grant}
use boreas.Store.Members.{is_member}
use boreas.Store.Grants.{is_grant_on, role_or_absent}
use boreas.Store
use boreas.App.{IsFaultless, Env, World}
use boreas.App.Laws.{bind-ok}
use boreas.Project.Access.{member_access, granted_role, get_project, get_task, access, seen, quoted}

-- A caller is seen by `Access` as one who may reach the task: a member of the project, or the
-- holder of a grant on the task, or on any task of the project where the path names none.
abbrev pub holds_grant : Db → Uuid → Uuid → String → Bool
holds_grant db project_id user_id task_name =
    if is_empty task_name
    then any_grant project_id user_id db
    else any (is_grant_on project_id user_id task_name db.tasks) db.grants

abbrev pub is_project_member : Db → Uuid → Uuid → Bool
is_project_member db project_id user_id = any (is_member project_id user_id) db.members

abbrev pub member_role : Option ProjectMember → ProjectRole
member_role none = absent
member_role (some m) = m.role

-- The role that the tables give a user who is no administrator.
abbrev pub effective_role : Db → Uuid → Uuid → String → ProjectRole
effective_role db project_id user_id task_name =
    max (member_role (find (is_member project_id user_id) db.members)) (
      if is_empty task_name
      then (if any_grant project_id user_id db then viewer else absent)
      else role_or_absent (find (is_grant_on project_id user_id task_name db.tasks) db.grants))

-- The higher of two roles: one of the two, which ranks below neither.
abbrev pub IsHigher : ProjectRole → ProjectRole → ProjectRole → Type 0
IsHigher a b r = (rank a ≤ rank r) × (rank b ≤ rank r) × ((r ≡ a) ⊎ (r ≡ b))

max-IsHigher : (a b : ProjectRole) → IsHigher a b (max a b)
unfolding max
max-IsHigher a b = (
  (rank-max a b).0,
  (rank-max a b).1,
  elim (Bool-cases (ltb (rank a) (rank b))) [ inl e ↦ inr (rw e refl) | inr e ↦ inl (rw e refl) ],
)

-- A project of the table that has the slug.
abbrev pub IsProjectAt : Db → String → Project → Type 0
IsProjectAt db slug p = Memᴰ p db.projects × (p.slug ≡ slug)

pub get_project_reads :
    (env : Env) (slug : String) (w : World) → (get_project env slug w).1.db ≡ w.db
unfolding get_project
get_project_reads env slug w = ground arith

get_project-IsProjectAt :
    (env : Env) (slug : String) (w : World) (p : Project)
    → (get_project env slug w).0 ≡ ok p
    → IsProjectAt w.db slug p
unfolding get_project Store.Projects.get_by_slug
get_project-IsProjectAt env slug w p h =
    let found : find (λ q. text_eq q.slug slug) w.db.projects ≡ some p = ground arith in
    let (m, e) = find_sound (λ (q : Project). text_eq q.slug slug) w.db.projects p found in
    (m, (eq_iff p.slug slug).0 e)

pub get_task_reads :
    (env : Env) (slug name : String) (w : World) → (get_task env slug name w).1.db ≡ w.db
unfolding get_task
get_task_reads env slug name w = ground arith

-- What the grants give: the role of the grant on the named task, or viewer for any grant in the
-- project where no task is named.
abbrev pub grant_part : Db → Uuid → Uuid → String → ProjectRole
grant_part db project_id user_id task_name =
    if is_empty task_name
    then (if any_grant project_id user_id db then viewer else absent)
    else role_or_absent (find (is_grant_on project_id user_id task_name db.tasks) db.grants)

granted_role_ok :
    (env : Env) (project_id user_id : Uuid) (task_name : String) (w : World) (r : ProjectRole)
    → (granted_role env project_id user_id task_name w).0 ≡ ok r
    → r ≡ grant_part w.db project_id user_id task_name
unfolding granted_role Store.Grants.role Store.Grants.any_in_project
granted_role_ok env project_id user_id task_name w r h = ground arith

-- What a caller of `member_access` is let in with.
member_access_ok :
    (env : Env) (actor : User) (task_name : String) (project : Project) (w : World)
    (acc : ProjectAccess)
    → (member_access env actor task_name project w).0 ≡ ok acc
    → (acc.role ≡ effective_role w.db project.id actor.id task_name)
      × (is_absent acc.role ≡ false)
      × (acc.project ≡ project)
unfolding member_access Store.Members.get_member
member_access_ok env actor task_name project w acc h =
    let w1 : World = record w { tick = suc w.tick } in
    elim (Result-cases (granted_role env project.id actor.id task_name w1).0) [
      | inl (r, e) ↦
          let law = granted_role_ok env project.id actor.id task_name w1 r e in
          (ground (arith, e, law), ground (arith, e), ground (arith, e))
      | inr (x, e) ↦ (ground (arith, e), ground (arith, e), ground (arith, e))
    ]

effective_row :
    (db : Db) (project_id user_id : Uuid) (task_name : String)
    → is_absent (effective_role db project_id user_id task_name) ≡ false
    → (is_project_member db project_id user_id ≡ true)
      ⊎ (holds_grant db project_id user_id task_name ≡ true)
unfolding max
effective_row db project_id user_id task_name h = ground (
  arith,
  find-none (is_member project_id user_id) db.members,
  find-none (is_grant_on project_id user_id task_name db.tasks) db.grants,
)

module _ (env : Env) (w : World) (actor : User) (slug task_name : String) where
  -- The role as one expression of the rows, and there is one.
  pub access_ok :
      (acc : ProjectAccess)
      → (access env actor slug task_name w).0 ≡ ok acc
      → is_admin actor ≡ false
      → (acc.role ≡ effective_role w.db acc.project.id actor.id task_name)
        × (is_absent acc.role ≡ false)
  unfolding access
  access_ok acc h a = elim (Result-cases (get_project env slug w).0) [
    | inl (project, e) ↦
        let w1 = (get_project env slug w).1 in
        let same : w1.db ≡ w.db = get_project_reads env slug w in
        let let_in : (member_access env actor task_name project w1).0 ≡ ok acc =
          ground (arith, e) in
        let (role, present, project_is) =
          member_access_ok env actor task_name project w1 acc let_in in
        (rw (project_is, ← same) role, present)
    | inr (x, e) ↦ (ground (arith, e), ground (arith, e))
  ]

  -- Whoever is let in, the project is the one that has the slug.
  pub access-IsProjectAt :
      (acc : ProjectAccess)
      → (access env actor slug task_name w).0 ≡ ok acc
      → IsProjectAt w.db slug acc.project
  unfolding access
  access-IsProjectAt acc h =
      let (project, found, rest) = bind-ok (get_project env slug) _ w h in
      let w1 = (get_project env slug w).1 in
      let at = get_project-IsProjectAt env slug w project found in
      elim (Bool-cases (is_admin actor)) [
        | inl e ↦ let same : project ≡ acc.project = ground (arith, e, rest) in rw (← same) at
        | inr e ↦
            let let_in : (member_access env actor task_name project w1).0 ≡ ok acc =
              ground (arith, e, rest) in
            let (role, present, same) =
              member_access_ok env actor task_name project w1 acc let_in in
            rw same at
      ]

  -- Whatever the database answers, a caller who is no administrator and whom `Access` lets in has a
  -- row: a membership of that project, or a grant on the named task of that project (on any task
  -- of it, where none is named).
  pub access-has_row :
      (acc : ProjectAccess)
      → (access env actor slug task_name w).0 ≡ ok acc
      → is_admin actor ≡ false
      → (is_project_member w.db acc.project.id actor.id ≡ true)
        ⊎ (holds_grant w.db acc.project.id actor.id task_name ≡ true)
  access-has_row acc h a =
      let (role, present) = access_ok acc h a in
      effective_row w.db acc.project.id actor.id task_name (rw (← role) present)

  -- Whatever the database answers, a caller who is no administrator and whom `Access` lets in reaches
  -- the stored project that has the slug, and the role is the higher of those of the membership row
  -- and of the grant that the tables hold (viewer for a grant on any task, where no task is named): one
  -- of the two, and it ranks below neither, so that a grant raises access and never lowers it.
  pub access-role :
      (acc : ProjectAccess)
      → (access env actor slug task_name w).0 ≡ ok acc
      → is_admin actor ≡ false
      → IsProjectAt w.db slug acc.project
        × IsHigher
            (member_role (find (is_member acc.project.id actor.id) w.db.members))
            (grant_part w.db acc.project.id actor.id task_name)
            acc.role
  access-role acc h a =
      let granted = grant_part w.db acc.project.id actor.id task_name in
      let stored = member_role (find (is_member acc.project.id actor.id) w.db.members) in
      (
        access-IsProjectAt acc h,
        subst (IsHigher stored granted) (sym (access_ok acc h a).0) (max-IsHigher stored granted),
      )

  -- `Access` reads: tables, routes, codes and the log stay as they were.
  pub access_reads :
      ((access env actor slug task_name w).1.db ≡ w.db)
      × ((access env actor slug task_name w).1.registry ≡ w.registry)
      × ((access env actor slug task_name w).1.log ≡ w.log)
  unfolding access member_access
  access_reads = ground arith

  module _ (quiet : IsFaultless env) (valid : validate_project_slug slug ≡ ok tt) where
    -- With the database at hand, a project that is not in the table is not found.
    pub access-missing :
        any (λ p. text_eq p.slug slug) w.db.projects ≡ false
        → (e : Err) × ((access env actor slug task_name w).0 ≡ err e) × (e.kind ≡ not_found)
    unfolding access Store.Projects.get_by_slug
    access-missing h = (
      wrap (quoted "get project" slug) err_not_found,
      ground (arith, quiet w.tick, find-none (λ (p : Project). text_eq p.slug slug) w.db.projects),
      refl,
    )

    -- With the database at hand, a caller who is no administrator and has neither a membership nor a
    -- grant hears the same as for a project that is not there: not found.
    pub access-unreached :
        (p : Project)
        → find (λ p. text_eq p.slug slug) w.db.projects ≡ some p
        → is_admin actor ≡ false
        → is_project_member w.db p.id actor.id ≡ false
        → holds_grant w.db p.id actor.id task_name ≡ false
        → (access env actor slug task_name w).0 ≡ err err_not_found
    unfolding access member_access max Store.Projects.get_by_slug Store.Members.get_member
        Store.Grants.role Store.Grants.any_in_project
    access-unreached p h a m g = ground (
      arith,
      quiet w.tick,
      quiet (suc w.tick),
      quiet (suc (suc w.tick)),
      find-none (is_member p.id actor.id) w.db.members,
      find-none (is_grant_on p.id actor.id task_name w.db.tasks) w.db.grants,
    )

    -- With the database at hand, a member reaches every task of the project, with a role no lower
    -- than the membership's.
    pub access-member :
        (p : Project) (m : ProjectMember)
        → find (λ p. text_eq p.slug slug) w.db.projects ≡ some p
        → find (is_member p.id actor.id) w.db.members ≡ some m
        → 0 < rank m.role
        → is_admin actor ≡ false
        → (acc : ProjectAccess) × ((access env actor slug task_name w).0 ≡ ok acc)
          × (acc.project ≡ p)
          × (acc.all_tasks ≡ true)
          × (rank m.role ≤ rank acc.role)
    unfolding access member_access max Store.Projects.get_by_slug Store.Members.get_member
        Store.Grants.role Store.Grants.any_in_project
    access-member p m h k r a = (
      seen p actor.id (effective_role w.db p.id actor.id task_name) true,
      ground (arith, quiet w.tick, quiet (suc w.tick), quiet (suc (suc w.tick))),
      refl,
      refl,
      ground arith,
    )
