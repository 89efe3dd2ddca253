-- ===== src/Task/Update/Laws.antt =====
-- What an update touches.
use text.Mathlib.Text.{◌==◌ as text_eq}
use boreas.Prelude.{String, ◌≡◌, Bool, true, false, List, arith}
use boreas.Prelude.Text.{trim_space}
use boreas.Core.Errors.{ok}
use boreas.Core.Revision.{validate_revision}
use boreas.Core.Model.{Task, Project, Revision, Route}
use boreas.App.{Env, World}
use boreas.Project.Access.{get_task}
use boreas.Task.Update.{UpdateTaskInput, apply_update, container_changed, metadata_changed, wanted}
use boreas.Task.Update.Deploy.{deploy, deploy_digest, with_previous}

module _ (env : Env) (task : Task) (project : Project) (input : UpdateTaskInput) (recreate : Bool)
    (routes : List Route) (hash : String) (w : World) where
  -- An update that leaves the container as it is asks nothing of Docker, tells nobody and keeps
  -- the registry, whatever else it sends; one that changes nothing does not write.
  pub update-metadata :
      container_changed recreate (wanted input task project) task ≡ false
      → ((apply_update env task project input recreate routes hash w).1.log ≡ w.log)
        × ((apply_update env task project input recreate routes hash w).1.registry ≡ w.registry)
        × (metadata_changed input task routes hash ≡ false
            → apply_update env task project input recreate routes hash w ≡ (ok task, w))
  unfolding apply_update
  update-metadata h = (ground arith, ground arith, λ m. ground arith)

module _ (env : Env) (slug name image : String) (rev : Revision) (w : World) where
  -- A deploy of the image that the task has, where no change waits for a recreate, changes nothing,
  -- asks nothing of Docker and tells nobody.
  pub deploy-same :
      (task : Task) (project : Project)
      → (get_task env slug name w).0 ≡ ok (task, project)
      → deploy_digest (trim_space image) ≡ true
      → validate_revision rev ≡ ok tt
      → text_eq task.image (trim_space image) ≡ true
      → task.pending_recreate ≡ false
      → deploy env slug name image rev w ≡ (ok task, (get_task env slug name w).1)
  unfolding deploy
  deploy-same task project found d r i p = ground (arith, found, d, r, i)

  -- An image that is not pinned by its digest is not deployed: nothing is read, written or asked.
  pub deploy-pinned :
      deploy_digest (trim_space image) ≡ false → (deploy env slug name image rev w).1 ≡ w
  unfolding deploy
  deploy-pinned d = ground (arith, d)

-- Deploying the commit that runs again keeps the commit before it; another commit of the same
-- repository has the one that ran before it; the sent commit stays.
pub with_previous-chain :
    (rev old : Revision)
    → (with_previous rev old).commit ≡ rev.commit
      × (text_eq rev.repo old.repo ≡ true
          → text_eq rev.commit old.commit ≡ false
          → (with_previous rev old).previous ≡ old.commit)
unfolding with_previous
with_previous-chain rev old = (ground arith, λ r c. ground (arith, r, c))
