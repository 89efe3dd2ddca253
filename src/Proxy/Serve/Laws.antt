-- ===== src/Proxy/Serve/Laws.antt =====
-- What the proxy does with a request.
use boreas.Prelude.{
  ℕ, String, ◌≡◌, refl, true, false, Option, none, some, arith, find, Option-cases, inl, inr, ◌⊎◌,
}
use boreas.Prelude.Text.{codes}
use boreas.Proxy.Registry.{Registry, Site, Hop, Lock, site_at, route_key}
use boreas.Proxy.Lock.{
  Crypto, Visitor, LockAnswer, page, signed_in, admits, admitted, has_valid_cookie,
}
use boreas.Proxy.Serve.{
  Incoming, Outcome, Codes, Parts, through, split_path, path_key, matches, serve, serve_site,
  serve_hops, serve_task, lock_answer, let_in,
}

-- The site that a request names.
abbrev pub named_site : (ℕ → ℕ) → Registry → Parts → Site
named_site lower r parts = site_at (path_key lower parts.project parts.task) r

path_key-route_key :
    (lower : ℕ → ℕ) (project task : String)
    → path_key lower (codes project) (codes task) ≡ route_key lower project task
unfolding path_key route_key
path_key-route_key lower project task = refl

let_in-through :
    (a : LockAnswer) (o : Outcome) (hop : Hop)
    → let_in a o ≡ through hop
    → (a ≡ admitted) × (o ≡ through hop)
let_in-through admitted o hop h = (refl, h)
let_in-through (page s m) o hop h = cc
let_in-through (signed_in k p) o hop h = cc

module _ (c : Crypto) (request : Incoming) (parts : Parts) where
  -- The hops that the path of the request may take at a site.
  abbrev pub Takes : Site → Hop → Type 0
  Takes s hop =
      (s.task ≡ some hop)
      ⊎ ((find (matches request.path) s.routes ≡ some hop) × (request.looped ≡ false))

  serve_task-through :
      (own : Option Hop) (hop : Hop) → serve_task c request parts own ≡ through hop → own ≡ some hop
  unfolding serve_task
  serve_task-through none hop h = cc
  serve_task-through (some own) hop h = elim (Option-cases parts.rest) [
    | inl e ↦ ground (arith, e)
    | inr (rest, e) ↦ ground (arith, e)
  ]

  serve_hops-through :
      (s : Site) (hop : Hop) → serve_hops c request parts s ≡ through hop → Takes s hop
  unfolding serve_hops
  serve_hops-through s hop h = elim (Option-cases (find (matches request.path) s.routes)) [
    | inl e ↦ inl (serve_task-through s.task hop (ground (arith, e)))
    | inr (found, e) ↦ inr (ground (arith, e))
  ]

  -- Behind a lock, and below the task's root, only a cookie opens.
  lock_answer-admitted :
      (lock : Option Lock) (below : Option Codes) (v : Visitor)
      → lock_answer c lock below v ≡ admitted
      → (l : Lock) (rest : Codes) → lock ≡ some l
      → below ≡ some rest
      → has_valid_cookie c l v ≡ true
  unfolding admits
  lock_answer-admitted none below v h l rest f g = cc
  lock_answer-admitted (some l₀) none v h l rest f g = cc
  lock_answer-admitted (some l₀) (some rest₀) v h l rest f g = ground (arith, h, f)

  serve_site-through :
      (s : Site) (hop : Hop)
      → serve_site c request parts s ≡ through hop
      → (lock_answer c s.lock parts.rest request.visitor ≡ admitted) × Takes s hop
  unfolding serve_site
  serve_site-through s hop h =
      let answer = lock_answer c s.lock parts.rest request.visitor in
      let served = serve_hops c request parts s in
      let in_hops : let_in answer served ≡ through hop = ground (arith, h) in
      let (opened, e) = let_in-through answer served hop in_hops in
      (opened, serve_hops-through s hop e)

module _ (c : Crypto) (lower : ℕ → ℕ) (r : Registry) (request : Incoming) where
  -- A request goes through a hop only where its path names a site; the hop is that site's task, or the
  -- one that `find` picks among its routes, and then no route sent the request here. Behind a lock the
  -- path stops at the task's root, or the request brings a cookie that the lock holds valid now.
  pub serve_sound :
      (hop : Hop)
      → serve c lower r request ≡ through hop
      → (parts : Parts) × (split_path request.path ≡ some parts)
        × Takes c request parts (named_site lower r parts) hop
        × ((l : Lock) (rest : Codes)
            → (named_site lower r parts).lock ≡ some l
            → parts.rest ≡ some rest
            → has_valid_cookie c l request.visitor ≡ true)
  unfolding serve
  serve_sound hop h = elim (Option-cases (split_path request.path)) [
    | inl e ↦ ground (arith, e)
    | inr (parts, e) ↦
        let site = named_site lower r parts in
        let served : serve_site c request parts site ≡ through hop = ground (arith, e) in
        let (opened, takes) = serve_site-through c request parts site hop served in
        (
          parts,
          e,
          takes,
          lock_answer-admitted c request parts site.lock parts.rest request.visitor opened,
        )
  ]
