-- ===== src/Task/Update/Deploy.antt =====
-- `Deploy` and `deployNotification` of internal/service/task_service.go.
use text.Mathlib.Text.{◌==◌ as text_eq}
use boreas.Prelude.{
  ℕ, String, Bool, true, false, not, ◌&&◌, ◌||◌, Option, none, some, List, [], ◌∷◌, all, length,
  ◌==◌, if◌then◌else◌,
}
use boreas.Prelude.Text.{codes, trim_space, ◌<>◌}
use boreas.Core.Enums.{deployed, deploy_failed}
use boreas.Core.Errors.{Err, Result, ok, err, invalid, require}
use boreas.Core.Revision.{is_hex, validate_revision}
use boreas.Core.Model.{Project, Task, Revision, Notification}
use boreas.App.{Env, App, ask, lift, pure, attempt, notify, ◌>>=◌, ◌>>◌}
use boreas.Project.Access.{get_task}
use boreas.Project.Notices.{notification}
use boreas.Task.Reply.{Failure, or_zero}
use boreas.Task.Update.{UpdateTaskInput, update_stored}

-- `\s` of a Go pattern
abbrev is_pattern_space : ℕ → Bool
is_pattern_space c = c == 9 || c == 10 || c == 12 || c == 13 || c == 32

abbrev pub is_digest : List ℕ → Bool
is_digest hex = all is_hex hex && length hex == 64

-- The rest of a text behind a prefix.
unfoldable pub cut_prefix : List ℕ → List ℕ → Option (List ℕ)
cut_prefix [] cs = some cs
cut_prefix (p ∷ ps) [] = none
cut_prefix (p ∷ ps) (c ∷ cs) = let rest = cut_prefix ps cs in if p == c then rest else none

abbrev digest_after : Option (List ℕ) → Bool
digest_after none = false
digest_after (some hex) = is_digest hex

-- `[^@\s]+@sha256:…`: `seen` says whether the repository has a character.
unfoldable pub repository_then_digest : Bool → List ℕ → Bool
unfolding cut_prefix
repository_then_digest seen [] = false
repository_then_digest seen (c ∷ cs) =
    let more = repository_then_digest true cs in
    if c == b'@'
    then seen && digest_after (cut_prefix (codes "sha256:") cs)
    else not (is_pattern_space c) && more

-- `^[^@\s]+@sha256:[0-9a-f]{64}$`
unfoldable pub deploy_digest : String → Bool
unfolding repository_then_digest
deploy_digest image = repository_then_digest false (codes image)

-- The revision to store, with the commit that the deploy before ran, from the same repository; a
-- rebuild of the same commit keeps the one before it.
unfoldable pub with_previous : Revision → Revision → Revision
with_previous rev old =
    if text_eq rev.repo old.repo
    then record rev {
      previous = if text_eq rev.commit old.commit then old.previous else old.commit;
    }
    else rev

unfoldable pub deploy_input : String → Revision → UpdateTaskInput
deploy_input image rev = record {
  description = none;
  note = none;
  dev_status = none;
  form_factor = none;
  password = none;
  image = some image;
  port = none;
  labels = none;
  env = none;
  volumes = none;
  routes = none;
  revision = rev;
}

abbrev pub cause_of : Result Failure Task → Option Err
cause_of (ok _) = none
cause_of (err f) = some f.cause

unfoldable pub deploy_notification : Project → String → String → Option Err → Notification
unfolding notification
deploy_notification project name completed none =
    notification project name deployed "🚀 Deploy Succeeded" ("Task completed at " <> completed)
deploy_notification project name completed (some cause) =
    notification project name deploy_failed "❌ Deploy Failed"
      ("Failed at " <> completed <> ": " <> cause.text)

module _ (env : Env) where
  -- A deploy of an image that is new, or whose change still waits for a recreate.
  unfoldable pub deploy_found : String → String → Revision → Task → Project → App Failure Task
  unfolding with_previous deploy_input update_stored deploy_notification
  deploy_found name image rev task project = do
    answer ←
        attempt (
          update_stored env task project (deploy_input image (with_previous rev task.revision))
            true)
    now ← ask env.now
    notify (deploy_notification project name (env.format_time now) (cause_of answer))
    lift answer

  unfoldable pub deploy : String → String → String → Revision → App Failure Task
  unfolding validate_revision get_task deploy_found
  deploy slug name image rev =
      let trimmed = trim_space image in
      (do
        or_zero (
            lift (
              require (deploy_digest trimmed) (
                invalid
                  "deploy image must be immutable, of the form repository@sha256:<64 hex digits>")))
        or_zero (lift (validate_revision rev))
        found ← or_zero (get_task env slug name)
        if text_eq found.0.image trimmed && not found.0.pending_recreate
            then pure found.0
            else deploy_found name trimmed rev found.0 found.1)
