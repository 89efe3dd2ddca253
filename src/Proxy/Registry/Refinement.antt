-- ===== src/Proxy/Registry/Refinement.antt =====
-- What the registry promises: sites by their key, each operation a change of one.
use boreas.Prelude.{
  ℕ, String, ◌≡◌, refl, Bool, true, false, Option, none, some, List, [], ◌∷◌, arith, if◌then◌else◌,
}
use boreas.Prelude.Int.{ℤ}
use boreas.Core.Errors.{ok, err}
use boreas.Core.Model.{Route}
use boreas.Proxy.Registry.SiteMap.{Key, key_eq, find_site}
use boreas.Proxy.Registry.{
  Registry, Site, Url, no_site, site_at, route_key, new_hop, update, register, unregister,
  set_routes, set_lock, hops_of, sort_hops, lock_of, set_task, set_hops, set_lock_of,
}
use boreas.Proxy.Registry.Laws.{kept, site_at-update}

-- The operations of the registry, with their arguments.
pub data Op : Type 0 where
  registers : String → String → String → ℤ → Op
  unregisters : String → String → Op
  routes_to : String → String → List Route → Op
  locks : String → String → String → Op

-- The abstract registry: a site for every key.
abbrev pub Sites : Type 0
Sites = Key → Site

abbrev pub change_at : Key → String → (Site → Site) → Sites → Sites
change_at key task change sites j = if key_eq key j then kept task (change (sites key)) else sites j

module _ (lower : ℕ → ℕ) (parse : String → Option Url) (join : String → ℤ → String) where
  abbrev pub run : Op → Registry → Registry
  run (registers project task host port) r = (register lower join project task host port r).1
  run (unregisters project task) r = unregister lower project task r
  run (routes_to project task routes) r = set_routes lower parse project task routes r
  run (locks project task hash) r = set_lock lower project task hash r

  abbrev pub run_all : List Op → Registry → Registry
  run_all [] r = r
  run_all (op ∷ ops) r = run_all ops (run op r)

  abbrev is_accepted : String → String → String → ℤ → Bool
  is_accepted project task host port = elim (register lower join project task host port []).0 [
    | ok _ ↦ true
    | err _ ↦ false
  ]

  -- What an operation means: `register` that is refused changes nothing.
  abbrev pub meaning : Op → Sites → Sites
  meaning (registers project task host port) sites =
      let target : Url = record { scheme = "http"; host = join host port; path = "" } in
      if is_accepted project task host port
      then change_at (route_key lower project task) task
          (set_task (some (new_hop project task "" target false))) sites
      else sites
  meaning (unregisters project task) sites =
      change_at (route_key lower project task) task (set_task none) sites
  meaning (routes_to project task routes) sites =
      change_at (route_key lower project task) task
        (set_hops (sort_hops (hops_of parse project task routes))) sites
  meaning (locks project task hash) sites =
      change_at (route_key lower project task) task (set_lock_of (lock_of project task hash)) sites

  abbrev pub meaning_all : List Op → Sites → Sites
  meaning_all [] sites = sites
  meaning_all (op ∷ ops) sites = meaning_all ops (meaning op sites)

  abbrev Agrees : Registry → Sites → Type 0
  Agrees r sites = (j : Key) → site_at j r ≡ sites j

  update-Agrees :
      (project task : String) (change : Site → Site) (r : Registry) (sites : Sites)
      → Agrees r sites
      → Agrees
          (update lower project task change r)
          (change_at (route_key lower project task) task change sites)
  update-Agrees project task change r sites h j =
      ground
        (arith, site_at-update lower project task change j r, h j, h (route_key lower project task))

  run-Agrees :
      (op : Op) (r : Registry) (sites : Sites)
      → Agrees r sites
      → Agrees (run op r) (meaning op sites)
  unfolding register unregister set_routes set_lock
  run-Agrees (registers project task host port) r sites h j =
      let target : Url = record { scheme = "http"; host = join host port; path = "" } in
      let changed =
        update-Agrees project task (set_task (some (new_hop project task "" target false))) r sites
          h j in
      ground (arith, changed, h j)
  run-Agrees (unregisters project task) r sites h j =
      update-Agrees project task (set_task none) r sites h j
  run-Agrees (routes_to project task routes) r sites h j =
      update-Agrees project task (set_hops (sort_hops (hops_of parse project task routes))) r sites
        h j
  run-Agrees (locks project task hash) r sites h j =
      update-Agrees project task (set_lock_of (lock_of project task hash)) r sites h j

  run_all-Agrees :
      (ops : List Op) (r : Registry) (sites : Sites)
      → Agrees r sites
      → Agrees (run_all ops r) (meaning_all ops sites)
  run_all-Agrees [] r sites h = h
  run_all-Agrees (op ∷ ops) r sites h =
      run_all-Agrees ops (run op r) (meaning op sites) (run-Agrees op r sites h)

  -- After any operations on the empty registry, a lookup finds what the operations mean on a plain
  -- function from keys to sites: each changes the one site of its task, which forgets its name when
  -- nothing of it is left, and a refused `Register` changes nothing.
  pub registry-refines :
      (ops : List Op) (j : Key) → site_at j (run_all ops []) ≡ meaning_all ops (λ _. no_site) j
  unfolding find_site
  registry-refines ops j = run_all-Agrees ops [] (λ _. no_site) (λ _. refl) j
