-- ===== src/Store/Projects.antt =====
-- The projects of internal/infra/postgres/projects.go.
use text.Mathlib.Text.{◌==◌ as text_eq}
use boreas.Prelude.{
  ℕ, String, Bool, true, false, not, ◌&&◌, ◌||◌, Option, none, some, List, [], ◌∷◌, ◌++◌, any, find,
  keep, change, length, ◌==◌, is_some, if◌then◌else◌,
}
use boreas.Core.Enums.{web, or_form_factor}
use boreas.Core.Errors.{Err, Result, ok, err, err_not_found}
use boreas.Core.Roles.{viewer}
use boreas.Core.Model.{Uuid, Project, ProjectMember, ProjectAccess}
use boreas.Store.Db.{Db, one, unique_violation, key_violation}

unfoldable pub list : Db → Result Err (List Project)
list db = ok db.projects

-- A grant on a task of the project.
abbrev pub any_grant : Uuid → Uuid → Db → Bool
any_grant project_id user_id db =
    any
      (λ g.
        g.user_id == user_id && any (λ t. t.id == g.task_id && t.project_id == project_id) db.tasks)
      db.grants

abbrev pub find_member : Uuid → Uuid → Db → Option ProjectMember
find_member project_id user_id db =
    find (λ m. m.project_id == project_id && m.user_id == user_id) db.members

-- One row of `ListForUser`: a project that is reached by grants alone is a viewer's, its
-- environment emptied.
abbrev pub access_row : Uuid → Project → Option ProjectMember → ProjectAccess
access_row user_id p none = record {
  project = record p { default_env = [] };
  user_id = user_id;
  role = viewer;
  all_tasks = false;
}
access_row user_id p (some m) = record {
  project = p;
  user_id = user_id;
  role = m.role;
  all_tasks = true;
}

unfoldable pub rows_for_user : Uuid → Db → List Project → List ProjectAccess
rows_for_user user_id db [] = []
rows_for_user user_id db (p ∷ ps) =
    let rest = rows_for_user user_id db ps in
    if is_some (find_member p.id user_id db) || any_grant p.id user_id db
    then access_row user_id p (find_member p.id user_id db) ∷ rest
    else rest

unfoldable pub list_for_user : Uuid → Db → Result Err (List ProjectAccess)
unfolding rows_for_user
list_for_user user_id db = ok (rows_for_user user_id db db.projects)

unfoldable pub get_by_slug : String → Db → Result Err Project
unfolding one
get_by_slug slug db = one (find (λ p. text_eq p.slug slug) db.projects)

unfoldable pub count : Db → Result Err ℕ
count db = ok (length db.projects)

abbrev known_credential : Option Uuid → Db → Bool
known_credential none db = true
known_credential (some id) db = any (λ c. c.id == id) db.credentials

abbrev known_user : Option Uuid → Db → Bool
known_user none db = true
known_user (some id) db = any (λ u. u.id == id) db.users

unfoldable pub create : Uuid → Project → Db → Result Err (Project × Db)
unfolding or_form_factor
create fresh project db =
    let row = record project {
      id = fresh;
      default_form_factor = or_form_factor project.default_form_factor web;
    } in
    if any (λ p. p.id == fresh || text_eq p.slug project.slug) db.projects
    then err (unique_violation "create project")
    else if known_credential project.registry_credential_id db && known_user project.created_by db
    then ok (row, record db { projects = db.projects ++ row ∷ [] })
    else err (key_violation "create project")

-- What UPDATE sets; id, slug and created_by stay.
abbrev set_columns : Project → Project → Project
set_columns project row = record row {
  name = project.name;
  registry_credential_id = project.registry_credential_id;
  default_image = project.default_image;
  default_port = project.default_port;
  default_env = project.default_env;
  default_form_factor = project.default_form_factor;
}

unfoldable pub update : Project → Db → Result Err (Project × Db)
update project db = elim (find (λ p. p.id == project.id) db.projects) [
  | none ↦ err err_not_found
  | some row ↦
      if known_credential project.registry_credential_id db
      then ok (
        set_columns project row,
        record db { projects = change (λ p. p.id == project.id) (set_columns project) db.projects },
      )
      else err (key_violation "update project")
]

-- Tasks restrict the delete; members go with the project.
unfoldable pub delete : Uuid → Db → Result Err (Unit {0} × Db)
delete id db =
    if any (λ p. p.id == id) db.projects
    then (if any (λ t. t.project_id == id) db.tasks
        then err (key_violation "delete project")
        else ok (
          tt,
          record db {
            projects = keep (λ p. not (p.id == id)) db.projects;
            members = keep (λ m. not (m.project_id == id)) db.members;
          },
        ))
    else err err_not_found
