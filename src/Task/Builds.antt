-- ===== src/Task/Builds.antt =====
-- `ReportBuild` of internal/service/task_service.go.
pub mod Laws
use text.Mathlib.Text.{◌==◌ as text_eq}
use boreas.Prelude.{String, Bool, true, false, not, ◌&&◌, ◌||◌, Option, none, some, if◌then◌else◌}
use boreas.Prelude.Text.{◌<>◌, is_empty, trim_space, or_text}
use boreas.Prelude.Int.{ℤ, or_int}
use boreas.Core.Enums.{BuildState, build_failed}
use boreas.Core.Errors.{Err, Result, ok, err}
use boreas.Core.Revision.{validate_build}
use boreas.Core.Model.{Project, Task, Build, Time}
use boreas.Proxy.Registry.{Url}
use boreas.Store
use boreas.App.{Env, App, exec, ask, lift, pure, wrapping, notify, ◌>>=◌, ◌>>◌}
use boreas.Project.Access.{get_task}
use boreas.Project.Notices.{notification}

abbrev pub is_running_build : BuildState → Bool
is_running_build BuildState.running = true
is_running_build _ = false

abbrev pub is_failure : BuildState → Bool
is_failure BuildState.failure = true
is_failure _ = false

-- A report that ends a run keeps the stage, progress and address that it does not say.
unfoldable pub continued : Build → Build → Build
continued previous build = if is_running_build build.state then build else record build {
  stage = or_text build.stage previous.stage;
  progress = or_int build.progress previous.progress;
  url = or_text build.url previous.url;
}

-- A run with another address is a new failure; a repeated result is not.
unfoldable pub is_new_failure : Build → Build → Bool
is_new_failure previous build =
    is_failure build.state
    && (not (is_failure previous.state) || not (text_eq build.url previous.url))

abbrev pub failure_detail : Build → String
failure_detail build = if is_empty build.stage then "build failed" else "failed at " <> build.stage

abbrev scheme_and_host : Option Url → Option (String × String)
scheme_and_host none = none
scheme_and_host (some u) = some (u.scheme, u.host)

module _ (env : Env) where
  unfoldable pub record_build : String → Build → Task → Project → App Err (Unit {0})
  unfolding continued is_new_failure notification exec
  record_build name build task project = do
    now ← ask env.now
    let stored = record (continued task.build build) { at = now }
    wrapping "record build" (exec env (Store.Tasks.set_build task.id stored))
    if is_new_failure task.build stored
        then notify
            (notification project name build_failed "🔨 Build Failed" (failure_detail stored))
        else pure tt

  unfoldable pub report_build : String → String → Build → App Err (Unit {0})
  unfolding validate_build get_task record_build
  report_build slug name build = do
    let sent = record build { stage = trim_space build.stage }
    lift (validate_build (λ u. scheme_and_host (env.parse_url u)) sent)
    found ← get_task env slug name
    record_build name sent found.0 found.1
