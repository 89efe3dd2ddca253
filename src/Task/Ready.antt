-- ===== src/Task/Ready.antt =====
-- `waitReady` and `finishStart` of internal/service/task_service.go. The ticker fires `polls` times
-- before the readiness deadline, so the loop inspects the container that often, and once at first.
pub mod Laws
use boreas.Prelude.{
  ℕ, zero, suc, String, Bool, true, false, not, ◌&&◌, Option, none, some, if◌then◌else◌,
}
use boreas.Prelude.Text.{◌<>◌, is_empty}
use boreas.Prelude.Int.{ℤ}
use boreas.Core.Enums.{TaskStatus, running, stopped, error}
use boreas.Core.Errors.{Err, Result, ok, err, other, wrap}
use boreas.Core.Model.{Task, ContainerState}
use boreas.Proxy.Registry.{register, unregister}
use boreas.Store
use boreas.App.{
  Env, App, inspect_container, start_container, exec, call, ask, pure, fail, attempt, wrapping,
  on_registry, ◌>>=◌, ◌>>◌,
}
use boreas.Task.Reply.{Failure, on_fail, or_zero, fail_task, conflict_as, status_text, is_running}

abbrev pub has_ended : TaskStatus → Bool
has_ended error = true
has_ended stopped = true
has_ended _ = false

abbrev pub deadline_exceeded : Err
deadline_exceeded = record { kind = other; text = "container readiness: context deadline exceeded" }

module _ (env : Env) where
  -- What one inspection says: the state of a container that is ready, or nothing yet.
  unfoldable pub judge : Result Err ContainerState → App Err (Option ContainerState)
  judge (err e) = pure none
  judge (ok state) =
      if has_ended state.status
      then fail (conflict_as ("container became " <> status_text state.status))
      else if is_running state.status && not (is_empty state.ip)
      then (do answers ← ask env.ready; pure (if answers then some state else none))
      else pure none

  unfoldable pub poll : String → App Err (Option ContainerState)
  unfolding judge
  poll container_id = do
    inspected ← attempt (call (inspect_container container_id) env.inspect)
    judge inspected

  unfoldable pub wait_ready : ℕ → String → App Err ContainerState
  unfolding poll
  wait_ready zero container_id = do
    found ← poll container_id
    elim found [ none ↦ fail deadline_exceeded | some state ↦ pure state ]
  wait_ready (suc rounds) container_id = do
    found ← poll container_id
    elim found [ none ↦ wait_ready rounds container_id | some state ↦ pure state ]

  -- `s.routes.Register`
  unfoldable pub register_route : String → String → String → ℤ → App Err (Unit {0})
  unfolding register
  register_route project task host port w =
      let (answer, registry) =
        register env.unicode_lower env.join_host_port project task host port w.registry in
      (answer, record w { registry = registry })

  unfoldable pub unregister_route : {E : Type 0} → String → String → App E (Unit {0})
  unfolding unregister
  unregister_route project task = on_registry (unregister env.unicode_lower project task)

  abbrev pub started : Task → ContainerState → Task
  started task state = record task {
    status = running;
    container_ip = state.ip;
    error = "";
    pending_recreate = false;
  }

  -- The row of a container that is ready, and its route.
  unfoldable pub store_and_route : Task → String → ContainerState → App Failure Task
  unfolding register_route exec
  store_and_route task slug state = do
    updated ←
        or_zero
          (wrapping "persist running task" (exec env (Store.Tasks.update (started task state))))
    or_zero (
        wrapping "register route"
          (register_route slug updated.name updated.container_ip updated.port))
    pure updated

  unfoldable pub finish_start : Task → String → App Failure Task
  unfolding wait_ready store_and_route fail_task
  finish_start task slug = do
    rounds ← ask env.polls
    state ← on_fail (wait_ready rounds task.container_id) (fail_task env task)
    store_and_route task slug state

  -- The start of a container, and the wait for it.
  unfoldable pub begin : String → String → Task → String → App Failure Task
  unfolding finish_start fail_task
  begin what container_id task slug = do
    on_fail (call (start_container container_id) env.start) (λ e. fail_task env task (wrap what e))
    finish_start task slug
