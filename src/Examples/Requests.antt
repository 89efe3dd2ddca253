-- ===== src/Examples/Requests.antt =====
-- Requests to the API and to the proxy at concrete inputs.
use Prim.Native.String.{len}
use boreas.Prelude.{
  ℕ, ◌+◌, ◌≤◌, ◌<◌, String, ◌≡◌, ◌⊎◌, inl, inr, refl, Bool, true, false, Option, none, some, List,
  [], ◌∷◌, ◌++◌, find, ltb, arith,
}
use mathlib.Core.List.{Memᴰ}
use boreas.Prelude.Text.{codes}
use boreas.Prelude.Int.{pos}
use boreas.Core.Enums.{TokenKind}
use boreas.Core.Errors.{ok, err_forbidden}
use boreas.Core.Roles.{owner}
use boreas.Core.Model.{User, ProjectAccess}
use boreas.Auth.Tokens.{authenticate}
use boreas.App.{World}
use boreas.Http.Policy.{is_public, ApiRoute, api_route, access_member, access_owner}
use boreas.Http.Errors.{kind_status}
use boreas.Http.Authorize.{Request, handle, authorize, bearer_token, falls_short}
use boreas.Http.Authorize.Documented.{is_listed, authorize_documented}
use boreas.Http.Authorize.Laws.{HasReach, is_write, handle_publishes, authorize_sound}
use boreas.Proxy.Registry.{
  Registry, Site, Hop, Lock, Url, new_hop, route_key, set_routes, sort_hops, site_at, no_site,
}
use boreas.Proxy.Registry.Longest.{sort_hops-longest}
use boreas.Proxy.Registry.Refinement.{
  Op, registers, locks, unregisters, run_all, meaning_all, registry-refines,
}
use boreas.Proxy.Lock.{Crypto, Visitor, admitted, sign, valid, has_valid_cookie}
use boreas.Proxy.Lock.Laws.{valid-sign, admits_sound, IsJustified}
use boreas.Proxy.Serve.{Incoming, Parts, Codes, matches, serve, split_path, through, under}
use boreas.Proxy.Serve.Laws.{named_site, Takes, serve_sound}
use boreas.Proxy.Rewrite.{Asked, Location, rewrite_location, without}
use boreas.Proxy.Rewrite.Laws.{rewrite_location_sound, rewrite_location-rewrite}
use boreas.Examples.Data.{quiet, world, ana, shop, db}

abbrev from_ana : Request
from_ana = record { authorization = "Bearer ana"; project = "shop"; name = "" }

abbrev ana_on_shop : ProjectAccess
ana_on_shop = record { project = shop; user_id = 1; role = owner; all_tasks = true }

authorize_sound_example :
    (kind : TokenKind) × ((authenticate quiet (bearer_token "Bearer ana") world).0 ≡ ok (ana, kind))
    × (falls_short access_member ana kind ≡ false)
    × HasReach access_member from_ana ana db (some ana_on_shop)
unfolding authorize boreas.Prelude.Text.trim_space boreas.Store.Tokens.get_by_hash
    boreas.Store.Users.get boreas.Core.Names.validate_project_slug boreas.Store.Projects.get_by_slug
    boreas.Store.Members.get_member boreas.Store.Grants.any_in_project boreas.Core.Roles.max
authorize_sound_example =
    authorize_sound quiet access_member from_ana world ana (some ana_on_shop) refl

abbrev from_bo : Request
from_bo = record { authorization = "Bearer bo"; project = "shop"; name = "" }

abbrev update_project : ApiRoute
update_project =
    api_route "PATCH" "/api/v1/projects/{project}" access_owner "updateProject" 0 (400 ∷ 409 ∷ [])
      false

authorize_documented_example : is_listed (kind_status (err_forbidden).kind) update_project ≡ true
unfolding boreas.Core.Names.validate_project_slug authorize boreas.Prelude.Text.trim_space
    boreas.Store.Tokens.get_by_hash boreas.Store.Users.get boreas.Store.Projects.get_by_slug
    boreas.Store.Members.get_member boreas.Store.Grants.any_in_project boreas.Core.Roles.max
authorize_documented_example =
    authorize_documented quiet update_project from_bo world err_forbidden refl refl refl

abbrev create_task : ApiRoute
create_task =
    api_route "POST" "/api/v1/projects/{project}/tasks" access_member "createTask" 201
      (400 ∷ 409 ∷ []) false

abbrev created : Option (User × Option ProjectAccess) → World → ℕ × World
created found w = (201, w)

handle_publishes_example :
    (is_public create_task.access ≡ false)
    × (is_write create_task ≡ true)
    × (create_task.quiet ≡ false)
    × ((handle quiet create_task created from_ana world).0.0 < 400)
    × ((found : User × Option ProjectAccess) × ((authorize quiet access_member from_ana world).0
          ≡ ok found)
        × ((handle quiet create_task created from_ana world).1
            ≡ (created (some found) (authorize quiet access_member from_ana world).1).1))
unfolding handle boreas.Prelude.Text.trim_space boreas.Store.Tokens.get_by_hash
    boreas.Store.Users.get boreas.Core.Names.validate_project_slug boreas.Store.Projects.get_by_slug
    boreas.Store.Members.get_member boreas.Store.Grants.any_in_project boreas.Core.Roles.max
handle_publishes_example = handle_publishes quiet create_task created from_ana world refl

-- A mac that is the hash and the text.
abbrev plain : Crypto
plain = record { mac = λ hash text. codes hash ++ text; password_matches = λ _ _. true }

abbrev cart_lock : Lock
cart_lock = record { task = "cart"; path = "/shop/cart/"; hash = "h" }

valid-sign_example : valid plain cart_lock (sign plain cart_lock 2000) 1000 ≡ ltb 1000 2000
valid-sign_example = valid-sign plain cart_lock 2000 1000 (ground arith)

abbrev with_cookie : Visitor
with_cookie = record {
  cookie = some (codes "2000.h2000");
  is_post = false;
  password = "";
  allowed = true;
  now = 1000;
}

admits_sound_example : IsJustified plain cart_lock with_cookie admitted
unfolding boreas.Proxy.Lock.admits
admits_sound_example = admits_sound plain cart_lock with_cookie admitted (ground arith) refl

abbrev cart_hop : Hop
cart_hop =
    new_hop "shop" "cart" "" (record { scheme = "http"; host = "172.18.0.2:80"; path = "" }) false

abbrev same : ℕ → ℕ
same c = c

abbrev sites : Registry
sites =
    (
      route_key same "shop" "cart",
      record { name = "cart"; task = some cart_hop; routes = []; lock = some cart_lock },
    )
    ∷ []

abbrev visit : Incoming
visit = record { path = codes "/shop/cart/a"; query = []; looped = false; visitor = with_cookie }

serve_sound_example :
    (parts : Parts) × (split_path (codes "/shop/cart/a") ≡ some parts)
    × Takes plain visit parts (named_site same sites parts) cart_hop
    × ((l : Lock) (rest : Codes)
        → (named_site same sites parts).lock ≡ some l
        → parts.rest ≡ some rest
        → has_valid_cookie plain l visit.visitor ≡ true)
unfolding serve boreas.Proxy.Registry.SiteMap.find_site route_key
serve_sound_example = serve_sound plain same sites visit cart_hop refl

abbrev no_fold : String → String → Bool
no_fold _ _ = false

-- A route to an address with a path.
abbrev api_hop : Hop
api_hop =
    new_hop "shop" "cart" "/api" (record { scheme = "http"; host = "api"; path = "/v2" }) false

abbrev said : Location
said = record { scheme = ""; host = ""; path = codes "/v2/x"; raw_path = []; tail = [] }

abbrev moved_to : Location
moved_to = record {
  scheme = "";
  host = "";
  path = codes "/shop/cart/api/x";
  raw_path = [];
  tail = [];
}

rewrite_location_sound_example :
    (under (codes "/shop/cart/api/x") (codes "/shop/cart/api") ≡ true)
    × (moved_to.host ≡ "")
    × (moved_to.tail ≡ said.tail)
    × (codes "/v2/x" ≡ codes "/v2" ++ without (codes "/shop/cart/api") (codes "/shop/cart/api/x"))
unfolding rewrite_location new_hop
rewrite_location_sound_example = rewrite_location_sound no_fold api_hop said moved_to refl

abbrev asked : Asked
asked = record {
  path = codes "/shop/cart/api/x";
  escaped_path = codes "/shop/cart/api/x";
  cookies = [];
  forwarded_for = [];
  forwarded_proto = "";
}

rewrite_location-rewrite_example : rewrite_location no_fold api_hop (some said) ≡ some moved_to
unfolding boreas.Proxy.Rewrite.rewrite new_hop boreas.Proxy.Serve.starts_with under
rewrite_location-rewrite_example =
    rewrite_location-rewrite no_fold api_hop (λ _. []) (λ l. l) "http" asked (codes "/x") said refl
      refl refl refl refl refl

abbrev root_hop : Hop
root_hop = new_hop "shop" "cart" "/" (record { scheme = "http"; host = "web"; path = "" }) false

sort_hops-longest_example : len (root_hop.path) ≤ len (api_hop.path)
unfolding sort_hops new_hop
sort_hops-longest_example =
    sort_hops-longest (λ h. true) (root_hop ∷ api_hop ∷ []) api_hop refl root_hop (Memᴰ.head refl)
      refl

abbrev ops : List Op
ops =
    registers "shop" "cart" "172.18.0.2" (pos 80)
    ∷ locks "shop" "cart" "h"
    ∷ unregisters "shop" "cart"
    ∷ []

registry-refines_example :
    site_at
      (route_key same "shop" "cart")
      (run_all same quiet.parse_url quiet.join_host_port ops [])
    ≡ meaning_all same quiet.parse_url quiet.join_host_port ops
        (λ _. no_site)
        (route_key same "shop" "cart")
registry-refines_example =
    registry-refines same quiet.parse_url quiet.join_host_port ops (route_key same "shop" "cart")
