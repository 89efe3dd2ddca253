-- ===== src/Task/Reply.antt =====
-- What a task operation of internal/service/task_service.go returns beside an error: the row that it
-- saved, or the zero task. `failTask`, `credential`, `checkFolders` and `Folders`.
use text.Mathlib.Text.{◌==◌ as text_eq}
use boreas.Prelude.{
  String, Bool, true, false, Option, none, some, List, [], ◌∷◌, any, if◌then◌else◌,
}
use boreas.Prelude.Text.{◌<>◌}
use boreas.Prelude.Dict.{Dict}
use boreas.Core.Enums.{TaskStatus, creating, running, stopped, error, starting, unknown}
use boreas.Core.Errors.{Err, Result, ok, err, Check, invalid, ErrKind}
use boreas.Core.Names.{validate_project_slug}
use boreas.Core.Model.{Project, Task, RegistryCredential, ContainerSpec}
use boreas.Store
use boreas.App.{
  Env, App, list_folders, query, exec, lift, call, pure, fail, attempt, wrapping, ◌>>=◌, ◌>>◌,
}

-- `return task, err`: the row is `none` where the code returns `core.Task{}`.
pub record Failure : Type 0 where
  pub row : Option Task
  pub cause : Err

abbrev pub no_row : Err → Failure
no_row e = record { row = none; cause = e }

abbrev settle : {A : Type 0} → Result Err A → (Err → App Failure A) → App Failure A
settle (ok a) handler = pure a
settle (err e) handler = handler e

-- `if err != nil { return handler(err) }`
abbrev pub on_fail : {A : Type 0} → App Err A → (Err → App Failure A) → App Failure A
on_fail m handler w = let (r, w') = m w in settle r handler w'

-- `if err != nil { return core.Task{}, err }`
abbrev pub or_zero : {A : Type 0} → App Err A → App Failure A
or_zero m = on_fail m (λ e. fail (no_row e))

abbrev pub is_running : TaskStatus → Bool
is_running running = true
is_running _ = false

-- creating or starting
abbrev pub is_transitioning : TaskStatus → Bool
is_transitioning creating = true
is_transitioning starting = true
is_transitioning _ = false

abbrev pub status_text : TaskStatus → String
status_text creating = "creating"
status_text running = "running"
status_text stopped = "stopped"
status_text error = "error"
status_text starting = "starting"
status_text unknown = "unknown"

abbrev pub conflict_as : String → Err
conflict_as what = record { kind = ErrKind.conflict; text = what <> ": conflict" }

abbrev pub failed : Task → Err → Task
failed task cause = record task { status = error; error = cause.text }

-- The row that `failTask` returns: the stored one, or its own if the store fails.
abbrev saved : Task → Result Failure Task → Task
saved task (ok updated) = updated
saved task (err e) = task

-- Every folder of the volumes is listed.
unfoldable pub folders_exist : List String → Dict → Check
folders_exist folders [] = ok tt
folders_exist folders ((target, folder) ∷ volumes) =
    let rest = folders_exist folders volumes in
    if any (λ f. text_eq f folder) folders
    then rest
    else err (invalid ("folder does not exist: " <> folder))

module _ (env : Env) where
  unfoldable pub fail_task : {A : Type 0} → Task → Err → App Failure A
  unfolding exec
  fail_task task cause = do
    answer ← attempt (or_zero (exec env (Store.Tasks.update (failed task cause))))
    fail (record { row = some (saved (failed task cause) answer); cause = cause })

  unfoldable pub credential : Project → App Err (Option RegistryCredential)
  unfolding query
  credential project = elim project.registry_credential_id [
    | none ↦ pure none
    | some id ↦ do
      stored ← wrapping "get registry credential" (query env (Store.Credentials.get id))
      pure (some stored)
  ]

  unfoldable pub folders : String → App Err (List String)
  folders slug = do
    lift (validate_project_slug slug)
    wrapping "list folders" (call (list_folders slug) env.folders)

  unfoldable pub check_folders : ContainerSpec → App Err (Unit {0})
  unfolding folders folders_exist
  check_folders spec = elim spec.volumes [
    | [] ↦ pure tt
    | _ ↦ do listed ← folders spec.project; lift (folders_exist listed spec.volumes)
  ]
