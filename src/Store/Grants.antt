-- ===== src/Store/Grants.antt =====
-- internal/infra/postgres/grants.go. The joined user name is left out.
use text.Mathlib.Text.{◌==◌ as text_eq}
use boreas.Prelude.{
  String, Bool, not, ◌&&◌, Option, none, some, List, [], ◌∷◌, ◌++◌, any, find, keep, change, ◌==◌,
  if◌then◌else◌,
}
use boreas.Core.Roles.{ProjectRole, absent}
use boreas.Core.Errors.{Err, Result, ok, err, err_not_found}
use boreas.Core.Model.{Uuid, Task, TaskGrant}
use boreas.Store.Db.{Db, key_violation}
use boreas.Store.Projects.{any_grant}

-- The join with tasks: the grant is the user's, on the task of that name in the project.
abbrev pub is_grant_on : Uuid → Uuid → String → List Task → TaskGrant → Bool
is_grant_on project_id user_id task_name tasks g =
    g.user_id == user_id
    && any (λ t. t.id == g.task_id && t.project_id == project_id && text_eq t.name task_name) tasks

abbrev pub role_or_absent : Option TaskGrant → ProjectRole
role_or_absent none = absent
role_or_absent (some g) = g.role

-- `absent` when nothing is granted; the keys of tasks and grants leave at most one row.
unfoldable pub role : Uuid → Uuid → String → Db → Result Err ProjectRole
role project_id user_id task_name db =
    ok (role_or_absent (find (is_grant_on project_id user_id task_name db.tasks) db.grants))

unfoldable pub any_in_project : Uuid → Uuid → Db → Result Err Bool
any_in_project project_id user_id db = ok (any_grant project_id user_id db)

-- The map from task to role, as its rows.
unfoldable pub for_user : Uuid → Db → Result Err (List TaskGrant)
for_user user_id db = ok (keep (λ g. g.user_id == user_id) db.grants)

unfoldable pub list_for_task : Uuid → Db → Result Err (List TaskGrant)
list_for_task task_id db = ok (keep (λ g. g.task_id == task_id) db.grants)

-- The primary key (task_id, user_id)
abbrev pub is_grant : Uuid → Uuid → TaskGrant → Bool
is_grant task_id user_id g = g.task_id == task_id && g.user_id == user_id

abbrev pub set_role : ProjectRole → TaskGrant → TaskGrant
set_role role g = record g { role = role }

-- INSERT … ON CONFLICT DO UPDATE SET role
abbrev pub upsert : TaskGrant → List TaskGrant → List TaskGrant
upsert g rows =
    if any (is_grant g.task_id g.user_id) rows
    then change (is_grant g.task_id g.user_id) (set_role g.role) rows
    else rows ++ g ∷ []

unfoldable pub grant : TaskGrant → Db → Result Err (Unit {0} × Db)
grant g db =
    if any (λ t. t.id == g.task_id) db.tasks && any (λ u. u.id == g.user_id) db.users
    then ok (tt, record db { grants = upsert g db.grants })
    else err (key_violation "grant task")

unfoldable pub revoke : Uuid → Uuid → Db → Result Err (Unit {0} × Db)
revoke task_id user_id db =
    if any (is_grant task_id user_id) db.grants
    then ok (tt, record db { grants = keep (λ g. not (is_grant task_id user_id g)) db.grants })
    else err err_not_found
