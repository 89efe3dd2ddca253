-- ===== src/Proxy/Serve.antt =====
-- `Registry.ServeHTTP` of internal/infra/proxy/registry.go: what is done with a request. Paths are code
-- points. How net/url writes an address out is left to the outcome.
pub mod Laws
use boreas.Prelude.{
  ℕ, String, Bool, true, false, not, ◌&&◌, ◌||◌, Option, none, some, List, [], ◌∷◌, ◌++◌, map, find,
  ◌==◌, is_some, if◌then◌else◌,
}
use boreas.Prelude.Text.{codes, is_empty}
use boreas.Proxy.Registry.{Registry, Site, Hop, Lock, site_at, lower_rune}
use boreas.Proxy.Registry.SiteMap.{Key, key_eq}
use boreas.Proxy.Lock.{Crypto, Visitor, LockAnswer, admitted, page, signed_in, admits}

abbrev pub Codes : Type 0
Codes = List ℕ

pub record Incoming : Type 0 where
  pub path : Codes
  pub query : Codes
  -- X-Boreas-Route is set: a route of this proxy sent the request.
  pub looped : Bool
  pub visitor : Visitor

pub data Outcome : Type 0 where
  -- the fallback, or 404
  missed : Outcome
  -- 307 to the same path under the task's own name, and the query
  renamed : Codes → Codes → Outcome
  -- the form of the lock, or its redirect
  refused : LockAnswer → Outcome
  -- 508
  looping : Outcome
  -- 308 to the task's base path
  based : Codes → Outcome
  through : Hop → Outcome

-- Up to the first slash, and behind it.
unfoldable pub cut_slash : Codes → Codes × Option Codes
cut_slash [] = ([], none)
cut_slash (c ∷ s) =
    let (before, after) = cut_slash s in if c == b'/' then ([], some s) else (c ∷ before, after)

abbrev pub trim_root : Codes → Codes
trim_root [] = []
trim_root (c ∷ s) = if c == b'/' then s else c ∷ s

-- The first two segments and the rest, if the path goes on behind them.
pub record Parts : Type 0 where
  pub project : Codes
  pub task : Codes
  pub rest : Option Codes

abbrev pub is_nil : Codes → Bool
is_nil [] = true
is_nil (c ∷ s) = false

abbrev split_task : Codes → Option Codes → Option Parts
split_task project none = none
split_task project (some s) =
    let (task, rest) = cut_slash s in
    if is_nil project || is_nil task
    then none
    else some (record { project = project; task = task; rest = rest })

-- `SplitN(TrimPrefix(path, "/"), "/", 3)`, where there are two segments that are not empty
unfoldable pub split_path : Codes → Option Parts
unfolding cut_slash
split_path path = let (project, after) = cut_slash (trim_root path) in split_task project after

-- `routeKey`
unfoldable pub path_key : (ℕ → ℕ) → Codes → Codes → Key
path_key unicode_lower project task = project ++ b'/' ∷ map (lower_rune unicode_lower) task

unfoldable pub starts_with : Codes → Codes → Bool
starts_with [] s = true
starts_with (c ∷ p) [] = false
starts_with (c ∷ p) (d ∷ s) = c == d && starts_with p s

-- `under(path, prefix)`
unfoldable pub under : Codes → Codes → Bool
unfolding key_eq starts_with
under path prefix = key_eq path prefix || starts_with (prefix ++ b'/' ∷ []) path

abbrev join_rest : Option Codes → Codes
join_rest none = []
join_rest (some rest) = b'/' ∷ rest

-- "/" + strings.Join(parts, "/")
abbrev pub full_path : Codes → Codes → Option Codes → Codes
full_path project task rest = b'/' ∷ project ++ b'/' ∷ task ++ join_rest rest

abbrev with_query : Codes → Codes → Codes
with_query location [] = location
with_query location (c ∷ query) = location ++ b'?' ∷ c ∷ query

abbrev pub matches : Codes → Hop → Bool
matches path h = under path (codes h.public)

abbrev pub let_in : LockAnswer → Outcome → Outcome
let_in admitted served = served
let_in (page status mood) served = refused (page status mood)
let_in (signed_in cookie path) served = refused (signed_in cookie path)

module _ (c : Crypto) where
  -- What the task itself does with a request that no route takes.
  unfoldable pub serve_task : Incoming → Parts → Option Hop → Outcome
  serve_task request parts none = missed
  serve_task request parts (some hop) = elim parts.rest [
    | none ↦ based (with_query (codes hop.public ++ b'/' ∷ []) request.query)
    | some _ ↦ through hop
  ]

  -- A request that the lock lets pass.
  unfoldable pub serve_hops : Incoming → Parts → Site → Outcome
  unfolding serve_task under
  serve_hops request parts s = elim (find (matches request.path) s.routes) [
    | some hop ↦ if request.looped then looping else through hop
    | none ↦ serve_task request parts s.task
  ]

  abbrev pub lock_answer : Option Lock → Option Codes → Visitor → LockAnswer
  lock_answer none rest v = admitted
  lock_answer (some l) none v = admitted
  lock_answer (some l) (some rest) v = admits c l v

  unfoldable pub serve_site : Incoming → Parts → Site → Outcome
  unfolding serve_hops admits key_eq
  serve_site request parts s =
      if not (is_empty s.name) && not (key_eq (codes s.name) parts.task)
      then renamed (full_path parts.project (codes s.name) parts.rest) request.query
      else let_in (lock_answer s.lock parts.rest request.visitor) (serve_hops request parts s)

  unfoldable pub serve : (ℕ → ℕ) → Registry → Incoming → Outcome
  unfolding split_path path_key serve_site
  serve unicode_lower r request = elim (split_path request.path) [
    | none ↦ missed
    | some parts ↦
        serve_site request parts (site_at (path_key unicode_lower parts.project parts.task) r)
  ]
