-- ===== src/Store/Db.antt =====
-- The tables of internal/pkg/database/migrations, as lists of rows, and `mapError`, `one` and
-- `deleteRow` of internal/infra/postgres/postgres.go. Rows come in table order: ORDER BY is left out.
-- So are the CHECK constraints, which repeat what the services check before they write, and the
-- text that the driver adds to a violated constraint.
use boreas.Prelude.{String, Bool, Option, none, some, List, any, change, if◌then◌else◌}
use boreas.Prelude.Text.{◌<>◌}
use boreas.Core.Errors.{Err, Result, ok, err, err_not_found, already_exists, ErrKind}
use boreas.Core.Model.{User, AuthToken, RegistryCredential, Project, ProjectMember, TaskGrant, Task}

pub record Db : Type 0 where
  pub users : List User
  pub tokens : List AuthToken
  pub credentials : List RegistryCredential
  pub projects : List Project
  pub members : List ProjectMember
  pub tasks : List Task
  pub grants : List TaskGrant

-- `errors.Join(core.ErrAlreadyExists, …)` for a unique violation
abbrev pub unique_violation : String → Err
unique_violation operation = record {
  kind = already_exists;
  text = "already exists\n" <> operation;
}

-- `errors.Join(core.ErrConflict, …)` for a foreign key or restrict violation
abbrev pub key_violation : String → Err
key_violation operation = record { kind = ErrKind.conflict; text = "conflict\n" <> operation }

module _ {A : Type 0} where
  -- `one`: no row is ErrNotFound.
  unfoldable pub one : Option A → Result Err A
  one none = err err_not_found
  one (some a) = ok a

  -- `deleteRow` for an update: ErrNotFound if no row is affected.
  unfoldable pub update_rows : (A → Bool) → (A → A) → List A → Result Err (List A)
  update_rows hit f rows = if any hit rows then ok (change hit f rows) else err err_not_found
