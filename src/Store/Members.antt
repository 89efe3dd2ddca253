-- ===== src/Store/Members.antt =====
-- The members of internal/infra/postgres/projects.go. The joined user name and avatar are left out.
use boreas.Prelude.{
  Bool, not, ◌&&◌, List, [], ◌∷◌, ◌++◌, any, find, keep, change, ◌==◌, if◌then◌else◌,
}
use boreas.Core.Roles.{ProjectRole}
use boreas.Core.Errors.{Err, Result, ok, err, err_not_found}
use boreas.Core.Model.{Uuid, ProjectMember}
use boreas.Store.Db.{Db, one, key_violation}

-- The primary key (project_id, user_id)
abbrev pub is_member : Uuid → Uuid → ProjectMember → Bool
is_member project_id user_id m = m.project_id == project_id && m.user_id == user_id

unfoldable pub list_members : Uuid → Db → Result Err (List ProjectMember)
list_members project_id db = ok (keep (λ m. m.project_id == project_id) db.members)

unfoldable pub get_member : Uuid → Uuid → Db → Result Err ProjectMember
unfolding one
get_member project_id user_id db = one (find (is_member project_id user_id) db.members)

abbrev pub set_role : ProjectRole → ProjectMember → ProjectMember
set_role role m = record m { role = role }

-- INSERT … ON CONFLICT DO UPDATE SET role
abbrev pub upsert : ProjectMember → List ProjectMember → List ProjectMember
upsert m rows =
    if any (is_member m.project_id m.user_id) rows
    then change (is_member m.project_id m.user_id) (set_role m.role) rows
    else rows ++ m ∷ []

unfoldable pub add_member : ProjectMember → Db → Result Err (Unit {0} × Db)
add_member m db =
    if any (λ p. p.id == m.project_id) db.projects && any (λ u. u.id == m.user_id) db.users
    then ok (tt, record db { members = upsert m db.members })
    else err (key_violation "add member")

unfoldable pub remove_member : Uuid → Uuid → Db → Result Err (Unit {0} × Db)
remove_member project_id user_id db =
    if any (is_member project_id user_id) db.members
    then ok
        (tt, record db { members = keep (λ m. not (is_member project_id user_id m)) db.members })
    else err err_not_found
