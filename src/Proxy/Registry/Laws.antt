-- ===== src/Proxy/Registry/Laws.antt =====
-- What the registry's operations do to the sites.
use boreas.Prelude.{ℕ, String, ◌≡◌, false, Option, none, some, List, arith, if◌then◌else◌}
use boreas.Prelude.Int.{ℤ}
use boreas.Core.Errors.{Err, ok, err}
use boreas.Core.Model.{Route}
use boreas.Proxy.Registry.SiteMap.{Key, key_eq, find_site, find-drop, find-put, key_eq_iff}
use boreas.Proxy.Registry.{
  Registry, Site, Url, no_site, site_at, is_idle, route_key, new_hop, update, register, unregister,
  set_routes, set_lock, hops_of, sort_hops, lock_of, set_task, set_hops, set_lock_of,
}

-- A site as the registry keeps it: one with nothing is no site.
abbrev pub kept : String → Site → Site
kept task s = if is_idle s then no_site else record s { name = task }

pub site_at-update :
    (lower : ℕ → ℕ) (project task : String) (change : Site → Site) (j : Key) (r : Registry)
    → site_at j (update lower project task change r) ≡ (
        if key_eq (route_key lower project task) j
        then kept task (change (site_at (route_key lower project task) r))
        else site_at j r)
unfolding update
site_at-update lower project task change j r =
    let k = route_key lower project task in
    let s = change (site_at k r) in
    ground (arith, find-drop k j r, find-put k j (record s { name = task }) r)

-- No site of the registry is empty.
abbrev pub NoIdle : Registry → Type 0
NoIdle r = (j : Key) (s : Site) → find_site j r ≡ some s → is_idle s ≡ false

update-NoIdle :
    (lower : ℕ → ℕ) (project task : String) (change : Site → Site) (r : Registry)
    → NoIdle r
    → NoIdle (update lower project task change r)
unfolding update
update-NoIdle lower project task change r h j s e =
    let k = route_key lower project task in
    let new = change (site_at k r) in
    ground (arith, find-drop k j r, find-put k j (record new { name = task }) r, h j s)

module _ (lower : ℕ → ℕ) (project task : String) (r : Registry) where
  register-NoIdle :
      NoIdle r
      → (join : String → ℤ → String) (host : String) (port : ℤ)
      → NoIdle (register lower join project task host port r).1
  unfolding register
  register-NoIdle h join host port j s e =
      let target : Url = record { scheme = "http"; host = join host port; path = "" } in
      ground (
        arith,
        update-NoIdle lower project task (set_task (some (new_hop project task "" target false))) r
            h j s,
        h j s,
      )

  -- Whatever is registered, taken back, routed or locked, no site without a task, a route and a
  -- lock is left in a registry that had none.
  pub registry-NoIdle :
      NoIdle r
      → ((join : String → ℤ → String) (host : String) (port : ℤ)
          → NoIdle (register lower join project task host port r).1)
        × NoIdle (unregister lower project task r)
        × ((parse : String → Option Url) (routes : List Route)
            → NoIdle (set_routes lower parse project task routes r))
        × ((hash : String) → NoIdle (set_lock lower project task hash r))
  unfolding unregister set_routes set_lock
  registry-NoIdle h = (
    register-NoIdle h,
    update-NoIdle lower project task (set_task none) r h,
    λ parse routes.
        update-NoIdle lower project task (set_hops (sort_hops (hops_of parse project task routes)))
          r h,
    λ hash. update-NoIdle lower project task (set_lock_of (lock_of project task hash)) r h,
  )

  -- Where `Register` succeeds, the site of the task leads to the task's address, keeps its routes
  -- and its lock, and every other site stays; where it refuses, the registry stays as it was.
  pub register-site :
      (join : String → ℤ → String) (host : String) (port : ℤ) (j : Key)
      → ((register lower join project task host port r).0 ≡ ok tt
          → site_at j (register lower join project task host port r).1 ≡ (
              if key_eq (route_key lower project task) j
              then record (site_at (route_key lower project task) r) {
                name = task;
                task = some (
                    new_hop project task ""
                      (record { scheme = "http"; host = join host port; path = "" })
                      false);
              }
              else site_at j r))
        × ((e : Err)
            → (register lower join project task host port r).0 ≡ err e
            → (register lower join project task host port r).1 ≡ r)
  unfolding register
  register-site join host port j =
      let target : Url = record { scheme = "http"; host = join host port; path = "" } in
      (
        λ h. ground (
          arith,
          site_at-update lower project task (set_task (some (new_hop project task "" target false)))
              j r,
        ),
        λ e h. ground arith,
      )

  -- `Unregister` takes the task from its site: a site that has routes or a lock keeps them, so that
  -- a stopped task stays behind its password, and one that has neither goes. No other site changes.
  pub unregister-site :
      (j : Key)
      → site_at j (unregister lower project task r) ≡ (
          if key_eq (route_key lower project task) j
          then (let s = site_at (route_key lower project task) r in
              if is_idle (record s { task = none })
              then no_site
              else record s { name = task; task = none })
          else site_at j r)
  unfolding unregister
  unregister-site j = site_at-update lower project task (set_task none) j r

  -- `SetLock` leaves the site of the task with a lock for the path below /project/task/, and for an
  -- empty hash without a lock. Its task and its routes stay, and so do the lock, task and routes of every other site.
  pub set_lock-site :
      (hash : String) (j : Key)
      → ((site_at j (set_lock lower project task hash r)).lock ≡ (
          if key_eq (route_key lower project task) j
          then lock_of project task hash
          else (site_at j r).lock))
        × ((site_at j (set_lock lower project task hash r)).routes ≡ (site_at j r).routes)
        × ((site_at j (set_lock lower project task hash r)).task ≡ (site_at j r).task)
  unfolding set_lock
  set_lock-site hash j =
      let law = site_at-update lower project task (set_lock_of (lock_of project task hash)) j r in
      (
        ground (arith, law),
        ground (arith, law, key_eq_iff (route_key lower project task) j),
        ground (arith, law, key_eq_iff (route_key lower project task) j),
      )
