-- ===== src/Task/Reconcile/Laws.antt =====
-- Where the proxy leads after `Reconcile` has seen a task's container.
use boreas.Prelude.{suc, String, ◌≡◌, true, false, none, List, [], ◌∷◌, arith}
use boreas.Core.Errors.{Err, Result, ok}
use boreas.Core.Model.{Task, ContainerState}
use boreas.Proxy.Registry.{route_key, site_at, set_lock, set_routes}
use boreas.Proxy.Registry.SiteMap.{key_eq_self}
use boreas.Proxy.Registry.Laws.{unregister-site}
use boreas.App.{Env, World, inspect_container}
use boreas.Task.Ready.{unregister_route}
use boreas.Task.Lifecycle.Starts.{LeadsTo, register_route-LeadsTo}
use boreas.Task.Reconcile.{reconcile_task, is_reachable, ip_of}

module _ (env : Env) (slug : String) (task : Task) (joined : List Err) (w : World) where
  abbrev seen : Result Err ContainerState
  seen = env.inspect w.tick

  -- Whatever the database answers, a task whose container is gone, does not run, has no address or
  -- cannot be looked at is routed nowhere after its turn in `Reconcile`.
  pub reconcile-unrouted :
      is_reachable seen ≡ false
      → (site_at
          (route_key env.unicode_lower slug task.name)
          (reconcile_task env slug task joined w).1.registry).task
        ≡ none
  unfolding reconcile_task unregister_route
  reconcile-unrouted h =
      let k = route_key env.unicode_lower slug task.name in
      let r =
        set_lock env.unicode_lower slug task.name task.password_hash
          (set_routes env.unicode_lower env.parse_url slug task.name task.routes w.registry) in
      ground (arith, h, unregister-site env.unicode_lower slug task.name r k, key_eq_self k)

  -- A task whose container runs and has an address is routed to the address that its container has
  -- now after its turn in `Reconcile`, if the turn adds no error.
  pub reconcile-routed :
      is_reachable seen ≡ true
      → (reconcile_task env slug task [] w).0 ≡ ok []
      → LeadsTo env slug
          (record task { container_ip = ip_of seen })
          (reconcile_task env slug task [] w).1
  unfolding reconcile_task
  reconcile-routed h k =
      let w2 : World = record w {
        registry =
            set_lock env.unicode_lower slug task.name task.password_hash
              (set_routes env.unicode_lower env.parse_url slug task.name task.routes w.registry);
        log = inspect_container task.container_id ∷ w.log;
        tick = suc w.tick;
      } in
      ground
        (arith, h, register_route-LeadsTo env slug (record task { container_ip = ip_of seen }) w2)
