-- ===== src/Examples/Tasks.antt =====
-- The life of a task at concrete inputs.
use boreas.Prelude.{String, ◌≡◌, refl, true, false, none, some, [], any, ◌==◌}
use boreas.Prelude.Int.{pos}
use boreas.Core.Enums.{BuildState}
use boreas.Core.Errors.{Err, ok, err}
use boreas.Core.Model.{Task, Build, Revision, no_revision}
use boreas.Store.Tasks.{set_build_column}
use boreas.App.{World}
use boreas.Project.Access.{get_task}
use boreas.Task.Lifecycle.{start, stop, restart, delete}
use boreas.Task.Lifecycle.Starts.{IsStarted}
use boreas.Task.Lifecycle.Laws.{IsStopped, start-ok, stop-ok, delete-all_or_nothing}
use boreas.Task.Update.{UpdateTaskInput, apply_update, metadata_changed}
use boreas.Task.Update.Laws.{update-metadata}
use boreas.Task.Builds.{record_build}
use boreas.Task.Builds.Laws.{record_build-effect, IsReported}
use boreas.Examples.Data.{quiet, world, cart, idle_cart, with_task, shop, db}

abbrev idle : World
idle = with_task idle_cart

start-ok_example :
    ((start quiet "shop" "cart" idle).0 ≡ ok cart
      → IsStarted quiet "shop" cart (start quiet "shop" "cart" idle).1)
    × ((restart quiet "shop" "cart" idle).0 ≡ ok cart
        → IsStarted quiet "shop" cart (restart quiet "shop" "cart" idle).1)
unfolding get_task boreas.Core.Names.validate_task_name boreas.Core.Names.validate_project_slug
    boreas.Store.Projects.get_by_slug boreas.Store.Tasks.get_by_name
start-ok_example = start-ok quiet "shop" "cart" idle idle_cart shop refl cart

stop-ok_example : IsStopped idle_cart (stop quiet "shop" "cart" world).1
unfolding get_task boreas.Core.Names.validate_task_name boreas.Core.Names.validate_project_slug
    boreas.Store.Projects.get_by_slug boreas.Store.Tasks.get_by_name stop boreas.Store.Tasks.update
stop-ok_example = stop-ok quiet "shop" "cart" world cart shop refl idle_cart refl

delete-all_or_nothing_example :
    ((delete quiet "shop" "cart" world).0 ≡ ok tt
      → (any (λ t. t.id == 30) (delete quiet "shop" "cart" world).1.db.tasks ≡ false)
        × (any (λ g. g.task_id == 30) (delete quiet "shop" "cart" world).1.db.grants ≡ false))
    × ((e : Err)
        → (delete quiet "shop" "cart" world).0 ≡ err e
        → (delete quiet "shop" "cart" world).1.db ≡ db)
unfolding get_task boreas.Core.Names.validate_task_name boreas.Core.Names.validate_project_slug
    boreas.Store.Projects.get_by_slug boreas.Store.Tasks.get_by_name
delete-all_or_nothing_example = delete-all_or_nothing quiet "shop" "cart" world cart shop refl

abbrev new_note : UpdateTaskInput
new_note = record {
  description = none;
  note = some "hello";
  dev_status = none;
  form_factor = none;
  password = none;
  image = none;
  port = none;
  labels = none;
  env = none;
  volumes = none;
  routes = none;
  revision = no_revision;
}

update-metadata_example :
    ((apply_update quiet cart shop new_note true [] "" world).1.log ≡ [])
    × ((apply_update quiet cart shop new_note true [] "" world).1.registry ≡ [])
    × (metadata_changed new_note cart [] "" ≡ false
        → apply_update quiet cart shop new_note true [] "" world ≡ (ok cart, world))
unfolding boreas.Task.Update.container_changed boreas.Task.Update.wanted
update-metadata_example = update-metadata quiet cart shop new_note true [] "" world refl

abbrev pinned : String
pinned = "shop/cart@sha256:0123456789abcdef0123456789abcdef0123456789abcdef0123456789abcdef"

abbrev pinned_cart : Task
pinned_cart = record cart { image = pinned }

abbrev first : Revision
first = record { repo = "a/b"; commit = "1"; previous = "" }

abbrev second : Revision
second = record { repo = "a/b"; commit = "2"; previous = "" }

abbrev broken : Build
broken = record {
  state = BuildState.failure;
  stage = "test";
  progress = pos 0;
  url = "http://ci/1";
  at = 0;
}

record_build-effect_example :
    IsReported quiet "cart" broken cart shop world
      (ok tt)
      (record_build quiet "cart" broken cart shop world).1
unfolding record_build boreas.Store.Tasks.set_build
record_build-effect_example = record_build-effect quiet "cart" broken cart shop world (ok tt) refl

abbrev launched : Task
launched = record cart { container_id = "c1"; container_ip = "172.18.0.2" }
