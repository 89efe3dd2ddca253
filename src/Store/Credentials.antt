-- ===== src/Store/Credentials.antt =====
-- internal/infra/postgres/credentials.go.
use text.Mathlib.Text.{◌==◌ as text_eq}
use boreas.Prelude.{
  Bool, true, not, ◌||◌, Option, none, some, List, [], ◌∷◌, ◌++◌, any, find, keep, map, ◌==◌,
  if◌then◌else◌,
}
use boreas.Core.Errors.{Err, Result, ok, err, err_not_found}
use boreas.Core.Model.{Uuid, RegistryCredential, Project}
use boreas.Store.Db.{Db, one, unique_violation, key_violation}

unfoldable pub list : Db → Result Err (List RegistryCredential)
list db = ok db.credentials

unfoldable pub get : Uuid → Db → Result Err RegistryCredential
unfolding one
get id db = one (find (λ c. c.id == id) db.credentials)

-- created_by is the authenticated caller, whose row is there unless it was deleted meanwhile.
abbrev known : Option Uuid → Db → Bool
known none db = true
known (some id) db = any (λ u. u.id == id) db.users

unfoldable pub create : Uuid → RegistryCredential → Db → Result Err (RegistryCredential × Db)
create fresh credential db =
    let row = record credential { id = fresh } in
    if any (λ c. c.id == fresh || text_eq c.name credential.name) db.credentials
    then err (unique_violation "create credential")
    else if known credential.created_by db
    then ok (row, record db { credentials = db.credentials ++ row ∷ [] })
    else err (key_violation "create credential")

abbrev unlink : Uuid → Option Uuid → Option Uuid
unlink id none = none
unlink id (some used) = if used == id then none else some used

abbrev unlink_project : Uuid → Project → Project
unlink_project id p = record p { registry_credential_id = unlink id p.registry_credential_id }

-- A project that used the credential is left without one.
unfoldable pub delete : Uuid → Db → Result Err (Unit {0} × Db)
delete id db =
    if any (λ c. c.id == id) db.credentials
    then ok (
      tt,
      record db {
        credentials = keep (λ c. not (c.id == id)) db.credentials;
        projects = map (unlink_project id) db.projects;
      },
    )
    else err err_not_found
