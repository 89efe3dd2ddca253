-- ===== src/Store/Tasks.antt =====
-- internal/infra/postgres/tasks.go. `lower` is the database's lower(text).
use text.Mathlib.Text.{◌==◌ as text_eq}
use boreas.Prelude.{
  String, Bool, not, ◌&&◌, ◌||◌, none, some, List, [], ◌∷◌, ◌++◌, any, find, keep, change, ◌==◌,
  if◌then◌else◌,
}
use boreas.Core.Enums.{DevStatus, in_progress, web, or_form_factor}
use boreas.Core.Errors.{Err, Result, ok, err, err_not_found}
use boreas.Core.Model.{Uuid, Task, Build, no_build, no_revision}
use boreas.Store.Db.{Db, one, update_rows, unique_violation, key_violation}

-- A task of the project that the caller reaches: any with `all_tasks`, else those granted.
abbrev pub reaches : Uuid → Uuid → Bool → Db → Task → Bool
reaches project_id user_id all_tasks db t =
    t.project_id == project_id
    && (all_tasks || any (λ g. g.task_id == t.id && g.user_id == user_id) db.grants)

unfoldable pub list : Uuid → Uuid → Bool → Db → Result Err (List Task)
list project_id user_id all_tasks db = ok (keep (reaches project_id user_id all_tasks db) db.tasks)

unfoldable pub list_all : Db → Result Err (List Task)
list_all db = ok db.tasks

abbrev pub is_named : Uuid → String → Task → Bool
is_named project_id name t = t.project_id == project_id && text_eq t.name name

unfoldable pub get_by_name : Uuid → String → Db → Result Err Task
unfolding one
get_by_name project_id name db = one (find (is_named project_id name) db.tasks)

-- `cmp.Or(status, core.DevInProgress)`
unfoldable pub or_in_progress : DevStatus → DevStatus
or_in_progress (DevStatus.unnamed String.[]) = in_progress
or_in_progress s = s

-- What INSERT leaves to the columns' defaults: id, build, revision and password_hash.
unfoldable pub create : (String → String) → Uuid → Task → Db → Result Err (Task × Db)
unfolding or_form_factor or_in_progress
create lower fresh task db =
    let row = record task {
      id = fresh;
      dev_status = or_in_progress task.dev_status;
      form_factor = or_form_factor task.form_factor web;
      password_hash = "";
      build = no_build;
      revision = no_revision;
    } in
    if any
      (λ t.
        t.id == fresh
        || (t.project_id == task.project_id && text_eq (lower t.name) (lower task.name)))
      db.tasks
    then err (unique_violation "create task")
    else if any (λ p. p.id == task.project_id) db.projects
    then ok (row, record db { tasks = db.tasks ++ row ∷ [] })
    else err (key_violation "create task")

-- What UPDATE sets; id, project_id, name and build stay as the row has them.
unfoldable pub set_columns : Task → Task → Task
unfolding or_form_factor or_in_progress
set_columns task row = record task {
  id = row.id;
  project_id = row.project_id;
  name = row.name;
  build = row.build;
  dev_status = or_in_progress task.dev_status;
  form_factor = or_form_factor task.form_factor web;
}

unfoldable pub update : Task → Db → Result Err (Task × Db)
unfolding set_columns
update task db = elim (find (λ t. t.id == task.id) db.tasks) [
  | none ↦ err err_not_found
  | some row ↦ ok (
    set_columns task row,
    record db { tasks = change (λ t. t.id == task.id) (set_columns task) db.tasks },
  )
]

abbrev pub set_build_column : Build → Task → Task
set_build_column build t = record t { build = build }

unfoldable pub set_build : Uuid → Build → Db → Result Err (Unit {0} × Db)
unfolding update_rows
set_build id build db = elim (update_rows (λ t. t.id == id) (set_build_column build) db.tasks) [
  | ok rows ↦ ok (tt, record db { tasks = rows })
  | err e ↦ err e
]

-- Grants go with the task.
unfoldable pub delete : Uuid → Db → Result Err (Unit {0} × Db)
delete id db =
    if any (λ t. t.id == id) db.tasks
    then ok (
      tt,
      record db {
        tasks = keep (λ t. not (t.id == id)) db.tasks;
        grants = keep (λ g. not (g.task_id == id)) db.grants;
      },
    )
    else err err_not_found
