-- ===== src/Task/Lifecycle/Starts.antt =====
-- What a start that succeeds leaves: the shared ends of `Create`, `Start` and `Restart`.
use boreas.Prelude.{
  suc, String, ◌≡◌, inl, inr, false, some, List, [], ◌∷◌, arith, ◌==◌, find, change, Option-cases,
}
use boreas.Prelude.Find.{find_sound}
use boreas.Core.Model.{ContainerSpec}
use boreas.App.{
  call, attempt, fail, exec, wrapping, remove_container, start_container, pull_image,
  create_container, recreate_container,
}
use boreas.Core.Errors.{wrap}
use boreas.Core.Enums.{starting}
use boreas.Core.Model.{spec}
use boreas.Task.Reply.{on_fail, no_row, or_zero, credential}
use boreas.App.{◌>>◌}
use boreas.App.Laws.{bind_ends}
use boreas.Core.Enums.{running}
use boreas.Core.Errors.{ok, Result-cases}
use boreas.Core.Model.{Task, Project, ContainerState}
use boreas.Proxy.Registry.{route_key, site_at, new_hop}
use boreas.Proxy.Registry.SiteMap.{key_eq_self}
use boreas.Proxy.Registry.Laws.{register-site}
use boreas.Store.Tasks.{set_columns}
use boreas.Store
use boreas.App.{Env, World}
use boreas.Task.Reply.{fail_task}
use boreas.Task.Ready.{
  unregister_route, wait_ready, register_route, started, finish_start, begin, store_and_route,
}
use boreas.Task.Lifecycle.{
  launch, start_found, recreate_and_begin, start_stored, ensure_container, restart_found,
}

-- The address that a started task is routed to.
abbrev pub LeadsTo : Env → String → Task → World → Type 0
LeadsTo env slug t w =
    (site_at (route_key env.unicode_lower slug t.name) w.registry).task
    ≡ some (
        new_hop slug t.name ""
          (record { scheme = "http"; host = env.join_host_port t.container_ip t.port; path = "" })
          false)

-- What a start that succeeds gives: a row of the table that runs and is routed.
abbrev pub IsStarted : Env → String → Task → World → Type 0
IsStarted env slug t w =
    (t.status ≡ running)
    × (t.error ≡ "")
    × (t.pending_recreate ≡ false)
    × LeadsTo env slug t w
    × (find (λ x. x.id == t.id) w.db.tasks ≡ some t)

pub register_route-LeadsTo :
    (env : Env) (slug : String) (t : Task) (w : World)
    → (register_route env slug t.name t.container_ip t.port w).0 ≡ ok tt
    → LeadsTo env slug t (register_route env slug t.name t.container_ip t.port w).1
unfolding register_route
register_route-LeadsTo env slug t w h =
    let k = route_key env.unicode_lower slug t.name in
    ground (
      arith,
      (register-site env.unicode_lower slug t.name w.registry env.join_host_port t.container_ip
          t.port k).0,
      key_eq_self k,
    )

pub find-change_columns :
    (task row : Task) (rows : List Task)
    → find (λ t. t.id == task.id) rows ≡ some row
    → find (λ t. t.id == task.id) (change (λ t. t.id == task.id) (set_columns task) rows)
      ≡ some (set_columns task row)
unfolding set_columns
find-change_columns task row [] h = cc
find-change_columns task row (r ∷ rows) h = ground (arith, find-change_columns task row rows)

store_then_route :
    (env : Env) (slug : String) (task t : Task) (state : ContainerState) (w : World)
    → (store_and_route env task slug state w).0 ≡ ok t
    → IsStarted env slug t (store_and_route env task slug state w).1
unfolding store_and_route Store.Tasks.update set_columns
store_then_route env slug task t state w h =
    elim (Option-cases (find (λ t. t.id == task.id) w.db.tasks)) [
      | inl e ↦ ground (arith, e)
      | inr (row, e) ↦
          let new = set_columns (started env task state) row in
          let w1 : World = record w {
            db = record w.db {
              tasks =
                  change (λ t. t.id == task.id) (set_columns (started env task state)) w.db.tasks;
            };
            tick = suc w.tick;
          } in
          let law = register_route-LeadsTo env slug new w1 in
          let law2 = find-change_columns (started env task state) row w.db.tasks e in
          let same : row.id ≡ task.id =
            ground (arith, (find_sound (λ (t : Task). t.id == task.id) w.db.tasks row e).1) in
          (
            ground (arith, e),
            ground (arith, e),
            ground (arith, e),
            ground (arith, e, law),
            ground (arith, e, same, law2),
          )
    ]

pub finish_start-ok :
    (env : Env) (slug : String) (task t : Task) (w : World)
    → (finish_start env task slug w).0 ≡ ok t
    → IsStarted env slug t (finish_start env task slug w).1
unfolding finish_start
finish_start-ok env slug task t w h =
    let w1 : World = record w { tick = suc w.tick } in
    let (r, w2) = wait_ready env (env.polls w.tick) task.container_id w1 in
    elim (Result-cases r) [
      | inl (state, e) ↦ ground (arith, e, store_then_route env slug task t state w2)
      | inr (x, e) ↦ ground (arith, e)
    ]

begin-ok :
    (env : Env) (what id : String) (task t : Task) (slug : String) (w : World)
    → (begin env what id task slug w).0 ≡ ok t
    → IsStarted env slug t (begin env what id task slug w).1
unfolding begin
begin-ok env what id task t slug w h =
    let w1 : World = record w { log = start_container id ∷ w.log; tick = suc w.tick } in
    ground (arith, finish_start-ok env slug task t w1)

start_stored-ok :
    (env : Env) (project : Project) (task t : Task) (w : World)
    → (start_stored env project task w).0 ≡ ok t
    → IsStarted env project.slug t (start_stored env project task w).1
unfolding start_stored
start_stored-ok env project task t w h =
    bind_ends (IsStarted env project.slug t) (ensure_container env project task) _ w
      (λ ready w1. begin-ok env "start container" ready.container_id ready t project.slug w1) h

-- Where `Create` gets past the reserved row: if the pull, the container, its row, its start, its
-- readiness and its route all come about, the row that it returns runs, has no error, is the row
-- that the table then holds, and the project's site of that name leads to its address.
pub launch-ok :
    (env : Env) (project : Project) (s : ContainerSpec) (task t : Task) (w : World)
    → (launch env project s task w).0 ≡ ok t
    → IsStarted env project.slug t (launch env project s task w).1
unfolding launch
launch-ok env project s task t w h =
    let P = IsStarted env project.slug t in
    bind_ends P (on_fail (credential env project) (fail_task env task)) _ w
      (λ login w1.
        bind_ends P
          (on_fail (call (pull_image s.image login) env.pull)
            (λ e. fail_task env task (wrap "pull image" e)))
          _ w1
          λ _ w2.
            bind_ends P
              (on_fail (call (create_container s) env.create)
                (λ e. fail_task env task (wrap "create container" e)))
              _ w2
              λ id w3.
                bind_ends P
                  (on_fail
                    (exec env
                      (Store.Tasks.update (record task { container_id = id; status = starting })))
                    (λ e. do
                      attempt (or_zero (call (remove_container id) env.remove))
                      fail (no_row (wrap "persist created container" e))))
                  _ w3 λ stored w4. begin-ok env "start container" id stored t project.slug w4)
      h

recreate_and_begin-ok :
    (env : Env) (project : Project) (task t : Task) (w : World)
    → (recreate_and_begin env project task w).0 ≡ ok t
    → IsStarted env project.slug t (recreate_and_begin env project task w).1
unfolding recreate_and_begin
recreate_and_begin-ok env project task t w h =
    let P = IsStarted env project.slug t in
    bind_ends P
      (on_fail (call (recreate_container task.container_id (spec task project.slug)) env.recreate)
        (λ e. fail_task env task (wrap "recreate container" e)))
      _ w
      (λ new_id w1.
        bind_ends P
          (or_zero (
            wrapping "mark restarting" (
              exec env (
                Store.Tasks.update (record task {
                  container_id = new_id;
                  pending_recreate = false;
                  status = starting;
                })))))
          (λ stored. begin env "restart container" stored.container_id stored project.slug) w1
          λ stored w2.
            begin-ok env "restart container" stored.container_id stored t project.slug w2)
      h

pub restart_found-ok :
    (env : Env) (name : String) (project : Project) (task t : Task) (w : World)
    → (restart_found env name project task w).0 ≡ ok t
    → IsStarted env project.slug t (restart_found env name project task w).1
unfolding restart_found
restart_found-ok env name project task t w h =
    let P = IsStarted env project.slug t in
    bind_ends P (or_zero (credential env project))
      (λ login.
        or_zero (wrapping "pull image" (call (pull_image task.image login) env.pull))
        >> (unregister_route env project.slug name >> recreate_and_begin env project task))
      w
      (λ login w1.
        bind_ends P (or_zero (wrapping "pull image" (call (pull_image task.image login) env.pull)))
          (λ _. unregister_route env project.slug name >> recreate_and_begin env project task) w1
          λ _ w2.
            bind_ends P (unregister_route env project.slug name)
              (λ _. recreate_and_begin env project task) w2
              λ _ w3. recreate_and_begin-ok env project task t w3)
      h

pub start_found-ok :
    (env : Env) (project : Project) (task t : Task) (w : World)
    → (start_found env project task w).0 ≡ ok t
    → IsStarted env project.slug t (start_found env project task w).1
unfolding start_found
start_found-ok env project task t w h =
    bind_ends (IsStarted env project.slug t)
      (or_zero (
        wrapping "mark starting"
          (exec env (Store.Tasks.update (record task { status = starting; error = "" })))))
      (start_stored env project) w (λ stored w1. start_stored-ok env project stored t w1) h
