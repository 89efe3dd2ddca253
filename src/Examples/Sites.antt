-- ===== src/Examples/Sites.antt =====
-- The registry and the routes at concrete inputs.
use boreas.Prelude.{
  ℕ, ◌≤◌, String, ◌≡◌, refl, Bool, true, false, Option, none, some, List, [], ◌∷◌, all, length,
  arith, if◌then◌else◌,
}
use boreas.Prelude.Int.{ℤ}
use boreas.Core.Errors.{ok}
use boreas.Core.Model.{Route}
use boreas.Core.Routes.{clean_routes}
use boreas.Core.Routes.Laws.{clean_routes-all, is_route_path}
use boreas.App.{Env}
use boreas.Proxy.Registry.{
  Registry, Site, Url, site_at, route_key, register, unregister, set_routes, set_lock, lock_of,
}
use boreas.Proxy.Registry.SiteMap.{Key, find_site}
use boreas.Proxy.Registry.Laws.{NoIdle, registry-NoIdle}
use boreas.Task.Reconcile.{reconcile_task}
use boreas.Task.Reconcile.Laws.{reconcile-routed, reconcile-unrouted}
use boreas.Task.Lifecycle.Starts.{LeadsTo}
use boreas.Examples.Data.{quiet, world, cart}

abbrev same : ℕ → ℕ
same c = c

abbrev cart_key : Key
cart_key = route_key same "shop" "cart"

-- A site with a lock alone.
abbrev locked : Site
locked = record { name = "cart"; task = none; routes = []; lock = lock_of "shop" "cart" "hash" }

abbrev sites : Registry
sites = (cart_key, locked) ∷ []

sites-NoIdle : NoIdle sites
unfolding find_site
sites-NoIdle j s h = ground arith

abbrev cart_address : String → ℤ → String
cart_address host port = host

registry-NoIdle_example :
    ((join : String → ℤ → String) (host : String) (port : ℤ)
      → NoIdle (register same join "shop" "cart" host port sites).1)
    × NoIdle (unregister same "shop" "cart" sites)
    × ((parse : String → Option Url) (routes : List Route)
        → NoIdle (set_routes same parse "shop" "cart" routes sites))
    × ((hash : String) → NoIdle (set_lock same "shop" "cart" hash sites))
registry-NoIdle_example = registry-NoIdle same "shop" "cart" sites sites-NoIdle

abbrev cart_url : Url
cart_url = record { scheme = "http"; host = "172.18.0.2"; path = "" }

abbrev api_route : Route
api_route = record { path = "/api"; url = "http://api"; any_cert = false }

clean_routes-all_example :
    (length (api_route ∷ []) ≡ length (api_route ∷ []))
    × (length (api_route ∷ []) ≤ 20)
    × (all is_route_path (api_route ∷ []) ≡ true)
unfolding clean_routes
clean_routes-all_example = clean_routes-all (λ u. some u) (api_route ∷ []) (api_route ∷ []) refl

reconcile-routed_example :
    LeadsTo quiet "shop"
      (record cart { container_ip = "172.18.0.2" })
      (reconcile_task quiet "shop" cart [] world).1
unfolding reconcile_task boreas.Store.Tasks.update boreas.Core.Names.validate_project_slug
    boreas.Core.Names.validate_task_name boreas.Prelude.Text.trim_space
reconcile-routed_example = reconcile-routed quiet "shop" cart [] world refl refl

abbrev blind : Env
blind = record quiet {
  inspect = λ _. ok (record { exists = false; status = cart.status; ip = ""; error = "" });
}

reconcile-unrouted_example :
    (site_at
      (route_key blind.unicode_lower "shop" "cart")
      (reconcile_task blind "shop" cart [] world).1.registry).task
    ≡ none
reconcile-unrouted_example = reconcile-unrouted blind "shop" cart [] world refl
