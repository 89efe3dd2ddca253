-- ===== src/Proxy/Registry.antt =====
-- The state of internal/infra/proxy/registry.go and the operations that change it. A site's key is
-- its text by code points. `unicode_lower` is `unicode.ToLower` beyond ASCII, `parse` is `url.Parse`.
-- A hop holds what its handler closes over; the transport that it picks is the flag `any_cert`.
pub mod SiteMap
pub mod Laws
pub mod Longest
pub mod Refinement
use Prim.Native.String.{len}
use boreas.Prelude.{
  ℕ, ◌+◌, String, Bool, true, false, not, ◌&&◌, ◌||◌, Option, none, some, List, [], ◌∷◌, ◌++◌, map,
  ltb, leb, if◌then◌else◌, is_some,
}
use boreas.Prelude.Text.{codes, is_upper, is_blank, is_empty, ◌<>◌}
use boreas.Prelude.Int.{ℤ, pos, between}
use boreas.Core.Errors.{Check, ok, err, invalid, require, ◌>>◌}
use boreas.Core.Names.{validate_project_slug, validate_task_name}
use boreas.Core.Model.{Route}
use SiteMap.{Sites, Key, find_site, put_site, drop_site}

pub record Url : Type 0 where
  pub scheme : String
  pub host : String
  pub path : String

pub record Hop : Type 0 where
  pub project : String
  pub task : String
  pub path : String
  pub public : String
  pub target : Url
  pub any_cert : Bool

-- The limiter on tries belongs to golang.org/x/time/rate and is left out of the state.
pub record Lock : Type 0 where
  pub task : String
  pub path : String
  pub hash : String

pub record Site : Type 0 where
  pub name : String
  pub task : Option Hop
  pub routes : List Hop
  pub lock : Option Lock

abbrev pub no_site : Site
no_site = record { name = ""; task = none; routes = []; lock = none }

abbrev pub Registry : Type 0
Registry = Sites Site

abbrev pub lower_rune : (ℕ → ℕ) → ℕ → ℕ
lower_rune unicode_lower c = if is_upper c then c + 32 else if ltb c 128 then c else unicode_lower c

unfoldable pub route_key : (ℕ → ℕ) → String → String → Key
route_key unicode_lower project task =
    codes project ++ b'/' ∷ map (lower_rune unicode_lower) (codes task)

unfoldable pub new_hop : String → String → String → Url → Bool → Hop
new_hop project task path target any_cert = record {
  project = project;
  task = task;
  path = path;
  public = "/" <> project <> "/" <> task <> path;
  target = target;
  any_cert = any_cert;
}

abbrev pub site_at : Key → Registry → Site
site_at key r = elim (find_site key r) [ none ↦ no_site | some s ↦ s ]

abbrev pub is_idle : Site → Bool
is_idle s = elim s.task [
  | some _ ↦ false
  | none ↦ elim s.routes [ (_ ∷ _) ↦ false | [] ↦ not (is_some s.lock) ]
]

-- `Registry.update`: a site that is left with nothing goes.
unfoldable pub update : (ℕ → ℕ) → String → String → (Site → Site) → Registry → Registry
update unicode_lower project task change r =
    let key = route_key unicode_lower project task in
    let s = change (site_at key r) in
    if is_idle s then drop_site key r else put_site key (record s { name = task }) r

abbrev pub set_task : Option Hop → Site → Site
set_task hop s = record s { task = hop }

abbrev pub set_hops : List Hop → Site → Site
set_hops hops s = record s { routes = hops }

abbrev pub set_lock_of : Option Lock → Site → Site
set_lock_of l s = record s { lock = l }

-- `net.JoinHostPort(host, fmt.Sprint(port))`, given by the caller as `address`.
unfoldable pub register :
    (ℕ → ℕ) → (String → ℤ → String) → String → String → String → ℤ → Registry → Check × Registry
unfolding update new_hop
register unicode_lower join_host_port project task host port r =
    elim (do
      validate_project_slug project
      validate_task_name task
      require (not (is_blank host) && between 1 65535 port)
          (invalid "proxy host and valid port are required")) [
            | err e ↦ (err e, r)
            | ok _ ↦
                let target : Url = record {
                  scheme = "http";
                  host = join_host_port host port;
                  path = "";
                } in
                (
                  ok tt,
                  update unicode_lower project task
                      (set_task (some (new_hop project task "" target false))) r,
                )
          ]

unfoldable pub unregister : (ℕ → ℕ) → String → String → Registry → Registry
unfolding update
unregister unicode_lower project task r = update unicode_lower project task (set_task none) r

-- The hops of the routes whose address parses.
unfoldable pub hops_of : (String → Option Url) → String → String → List Route → List Hop
unfolding new_hop
hops_of parse project task [] = []
hops_of parse project task (route ∷ routes) =
    let rest = hops_of parse project task routes in
    elim (parse route.url) [
      | none ↦ rest
      | some target ↦ new_hop project task route.path target route.any_cert ∷ rest
    ]

-- `slices.SortFunc` by falling length of the path: up to twelve elements Go sorts by insertion, and
-- so does the model whatever their number.
unfoldable pub insert_hop : Hop → List Hop → List Hop
insert_hop h [] = h ∷ []
insert_hop h (g ∷ gs) =
    let rest = insert_hop h gs in if leb (len g.path) (len h.path) then h ∷ g ∷ gs else g ∷ rest

unfoldable pub sort_hops : List Hop → List Hop
unfolding insert_hop
sort_hops [] = []
sort_hops (h ∷ hs) = insert_hop h (sort_hops hs)

unfoldable pub set_routes :
    (ℕ → ℕ) → (String → Option Url) → String → String → List Route → Registry → Registry
unfolding update
set_routes unicode_lower parse project task routes r =
    update unicode_lower project task (set_hops (sort_hops (hops_of parse project task routes))) r

-- `Registry.SetLock` of internal/infra/proxy/lock.go
abbrev pub lock_of : String → String → String → Option Lock
lock_of project task hash =
    if is_empty hash
    then none
    else some (record { task = task; path = "/" <> project <> "/" <> task <> "/"; hash = hash })

unfoldable pub set_lock : (ℕ → ℕ) → String → String → String → Registry → Registry
unfolding update
set_lock unicode_lower project task hash r =
    update unicode_lower project task (set_lock_of (lock_of project task hash)) r
