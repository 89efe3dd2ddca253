-- ===== src/Store/Users.antt =====
-- internal/infra/postgres/users.go. `lower` is the database's lower(text).
use text.Mathlib.Text.{◌==◌ as text_eq}
use boreas.Prelude.{
  ℕ, String, Bool, not, ◌&&◌, ◌||◌, Option, none, some, List, [], ◌∷◌, ◌++◌, any, find, keep,
  change, length, map, ◌==◌, if◌then◌else◌,
}
use boreas.Core.Errors.{Err, Result, ok, err, err_not_found}
use boreas.Core.Model.{Uuid, User, RegistryCredential, Project}
use boreas.Store.Db.{Db, one, unique_violation}

unfoldable pub get : Uuid → Db → Result Err User
unfolding one
get id db = one (find (λ u. u.id == id) db.users)

unfoldable pub get_by_username : (String → String) → String → Db → Result Err User
unfolding one
get_by_username lower username db =
    one (find (λ u. text_eq (lower u.username) (lower username)) db.users)

unfoldable pub count : Db → Result Err ℕ
count db = ok (length db.users)

-- A row other than `id` with this username or email, whatever their case.
abbrev taken : (String → String) → Uuid → String → String → List User → Bool
taken lower id username email users =
    any
      (λ u.
        not (u.id == id)
        && (text_eq (lower u.username) (lower username) || text_eq (lower u.email) (lower email)))
      users

unfoldable pub create : (String → String) → Uuid → User → Db → Result Err (User × Db)
create lower fresh user db =
    let row = record user { id = fresh } in
    if any (λ u. u.id == fresh) db.users || taken lower fresh user.username user.email db.users
    then err (unique_violation "create user")
    else ok (row, record db { users = db.users ++ row ∷ [] })

unfoldable pub update : (String → String) → User → Db → Result Err (User × Db)
update lower user db =
    if any (λ u. u.id == user.id) db.users
    then (if taken lower user.id user.username user.email db.users
        then err (unique_violation "update user")
        else ok (user, record db { users = change (λ u. u.id == user.id) (λ _. user) db.users }))
    else err err_not_found

abbrev forget : Uuid → Option Uuid → Option Uuid
forget id none = none
forget id (some by) = if by == id then none else some by

abbrev forget_in_credential : Uuid → RegistryCredential → RegistryCredential
forget_in_credential id c = record c { created_by = forget id c.created_by }

abbrev forget_in_project : Uuid → Project → Project
forget_in_project id p = record p { created_by = forget id p.created_by }

-- Tokens, memberships and grants go with the user; what they created stays.
unfoldable pub delete : Uuid → Db → Result Err (Unit {0} × Db)
delete id db =
    if any (λ u. u.id == id) db.users
    then ok (
      tt,
      record {
        users = keep (λ u. not (u.id == id)) db.users;
        tokens = keep (λ t. not (t.user_id == id)) db.tokens;
        credentials = map (forget_in_credential id) db.credentials;
        projects = map (forget_in_project id) db.projects;
        members = keep (λ m. not (m.user_id == id)) db.members;
        tasks = db.tasks;
        grants = keep (λ g. not (g.user_id == id)) db.grants;
      },
    )
    else err err_not_found
