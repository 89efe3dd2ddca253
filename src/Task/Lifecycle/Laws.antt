-- ===== src/Task/Lifecycle/Laws.antt =====
-- What the operations on a task's container leave.
use boreas.Task.Lifecycle.Starts.{IsStarted, find-change_columns, restart_found-ok, start_found-ok}
use boreas.Prelude.{
  String, ◌≡◌, refl, inl, inr, Bool, false, not, none, some, List, [], ◌∷◌, arith, ◌==◌, any, keep,
  find, Option-cases,
}
use boreas.Prelude.Find.{find_sound}
use boreas.Core.Model.{TaskGrant, Uuid}
use boreas.App.{◌>>◌}
use boreas.App.Laws.{bind_ends}
use boreas.Core.Enums.{stopped}
use boreas.Core.Errors.{Err, Result, ok, err, ErrKind}
use boreas.Core.Model.{Task, Project}
use boreas.Proxy.Registry.{set_lock, set_routes, unregister}
use boreas.Store.Tasks.{set_columns}
use boreas.Store
use boreas.App.{Env, World}
use boreas.Project.Access.{get_task}
use boreas.Project.Access.Laws.{get_task_reads}
use boreas.Task.Reply.{Failure}
use boreas.Task.Ready.{unregister_route}
use boreas.Task.Lifecycle.{
  start, store_stopped, stop_if_there, delete_row, stop, restart, stop_found, discard_container,
  delete,
}

-- The answer of a refused operation: a conflict, and no row.
abbrev pub IsConflict : Result Failure Task → Type 0
IsConflict (ok _) = ⊥
IsConflict (err f) = (f.row ≡ none) × (f.cause.kind ≡ ErrKind.conflict)

-- What a stop that succeeds gives: a row of the table that is stopped.
abbrev pub IsStopped : Task → World → Type 0
IsStopped t w =
    (t.status ≡ stopped)
    × (t.container_ip ≡ "")
    × (t.error ≡ "")
    × (find (λ x. x.id == t.id) w.db.tasks ≡ some t)

store_stopped-ok :
    (env : Env) (task t : Task) (w : World)
    → (store_stopped env task w).0 ≡ ok t
    → IsStopped t (store_stopped env task w).1
unfolding store_stopped Store.Tasks.update set_columns
store_stopped-ok env task t w h = elim (Option-cases (find (λ t. t.id == task.id) w.db.tasks)) [
  | inl e ↦ ground (arith, e)
  | inr (row, e) ↦
      let sent : Task = record task { status = stopped; container_ip = ""; error = "" } in
      let law = find-change_columns sent row w.db.tasks e in
      let same : row.id ≡ task.id =
        ground (arith, (find_sound (λ (t : Task). t.id == task.id) w.db.tasks row e).1) in
      (ground (arith, e), ground (arith, e), ground (arith, e), ground (arith, e, same, law))
]

stop_found-ok :
    (env : Env) (name : String) (project : Project) (task t : Task) (w : World)
    → (stop_found env name project task w).0 ≡ ok t
    → IsStopped t (stop_found env name project task w).1
unfolding stop_found
stop_found-ok env name project task t w h =
    bind_ends (IsStopped t) (stop_if_there env task)
      (λ _. unregister_route env project.slug name >> store_stopped env task) w
      (λ _ w1.
        bind_ends (IsStopped t) (unregister_route env project.slug name)
          (λ _. store_stopped env task) w1 λ _ w2. store_stopped-ok env task t w2)
      h

gone_from : {A : Type 0} (p : A → Bool) (xs : List A) → any p (keep (λ x. not (p x)) xs) ≡ false
gone_from p [] = refl
gone_from p (x ∷ xs) = ground (arith, gone_from p xs)

module _ (env : Env) (slug name : String) (w : World) (task : Task) (project : Project)
    (found : (get_task env slug name w).0 ≡ ok (task, project)) where
  -- Where `Start` succeeds the row that it returns runs, has no error and no change that waits for
  -- a recreate, is the row that the table then holds, and the project's site of that name leads to
  -- its address; so it is with `Restart`.
  pub start-ok :
      (t : Task)
      → ((start env slug name w).0 ≡ ok t → IsStarted env project.slug t (start env slug name w).1)
        × ((restart env slug name w).0 ≡ ok t
            → IsStarted env project.slug t (restart env slug name w).1)
  unfolding start restart
  start-ok t =
      let w1 = (get_task env slug name w).1 in
      (
        λ h. ground (arith, found, start_found-ok env project task t w1),
        λ h. ground (arith, found, restart_found-ok env name project task t w1),
      )

  -- Where `Stop` succeeds the row that it returns is stopped, has no address and no error, and is
  -- the row that the table then holds.
  pub stop-ok : (t : Task) → (stop env slug name w).0 ≡ ok t → IsStopped t (stop env slug name w).1
  unfolding stop stop_found
  stop-ok t h =
      let w1 = (get_task env slug name w).1 in
      ground (arith, found, stop_found-ok env name project task t w1)

discard_reads : (env : Env) (id : String) (w : World) → (discard_container env id w).1.db ≡ w.db
unfolding discard_container
discard_reads env id w = ground arith

-- The state of `Delete` before it removes the container.
abbrev unrouted : Env → String → String → World → World
unrouted env slug name w = record w {
  registry = set_lock env.unicode_lower slug name "" (
      set_routes env.unicode_lower env.parse_url slug name []
        (unregister env.unicode_lower slug name w.registry));
}

delete_rest-all :
    (env : Env) (id : Uuid) (w : World)
    → ((e : Err) → (delete_row env id w).0 ≡ err e → (delete_row env id w).1.db ≡ w.db)
      × ((delete_row env id w).0 ≡ ok tt
          → (any (λ t. t.id == id) (delete_row env id w).1.db.tasks ≡ false)
            × (any (λ g. g.task_id == id) (delete_row env id w).1.db.grants ≡ false))
unfolding delete_row Store.Tasks.delete
delete_rest-all env id w = (
  λ e h. ground arith,
  λ h. (
    ground (arith, gone_from (λ (t : Task). t.id == id) w.db.tasks),
    ground (arith, gone_from (λ (g : TaskGrant). g.task_id == id) w.db.grants),
  ),
)

module _ (env : Env) (slug name : String) (w : World) (task : Task) (project : Project)
    (found : (get_task env slug name w).0 ≡ ok (task, project)) where
  -- Where `Delete` succeeds no task with the id is left, and no grant on it; where it fails, on
  -- Docker or in the database, every table is as it was.
  pub delete-all_or_nothing :
      ((delete env slug name w).0 ≡ ok tt
        → (any (λ t. t.id == task.id) (delete env slug name w).1.db.tasks ≡ false)
          × (any (λ g. g.task_id == task.id) (delete env slug name w).1.db.grants ≡ false))
      × ((e : Err) → (delete env slug name w).0 ≡ err e → (delete env slug name w).1.db ≡ w.db)
  unfolding delete unregister_route
  delete-all_or_nothing =
      let w1 = (get_task env slug name w).1 in
      let w2 = unrouted env project.slug name w1 in
      let w3 = (discard_container env task.container_id w2).1 in
      let same : w1.db ≡ w.db = get_task_reads env slug name w in
      let same2 : w3.db ≡ w2.db = discard_reads env task.container_id w2 in
      (
        λ h. (
          ground (arith, found, delete_rest-all env task.id w2, delete_rest-all env task.id w3),
          ground (arith, found, delete_rest-all env task.id w2, delete_rest-all env task.id w3),
        ),
        λ e h. ground (
          arith,
          found,
          same,
          same2,
          delete_rest-all env task.id w2,
          delete_rest-all env task.id w3,
        ),
      )
