-- ===== src/Proxy/Rewrite.antt =====
-- What a hop does to a request and to its answer, of internal/infra/proxy/registry.go: `hop.rewrite`,
-- `rewriteLocation`, `base`, `modifyResponse` and `fail`. Texts are code points. What net/url and
-- net/http read (escaped paths, addresses, the X-Forwarded headers, a tag's href) are arguments.
pub mod Laws
use boreas.Prelude.{
  ℕ, String, Bool, true, false, not, ◌&&◌, ◌||◌, Option, none, some, List, [], ◌∷◌, ◌++◌, ◌==◌,
  is_some, if◌then◌else◌,
}
use boreas.Prelude.Text.{codes, is_empty, or_text, ◌<>◌}
use boreas.Proxy.Registry.{Registry, Hop, Url, site_at, route_key}
use boreas.Proxy.Registry.SiteMap.{key_eq}
use boreas.Proxy.Cookie.{drop_lock_cookie}
use boreas.Proxy.Serve.{Codes, starts_with, under}

-- `strings.CutPrefix`
unfoldable pub cut_prefix : Codes → Codes → Option Codes
cut_prefix [] s = some s
cut_prefix (c ∷ p) [] = none
cut_prefix (c ∷ p) (d ∷ s) = let rest = cut_prefix p s in if c == d then rest else none

abbrev pub without : Codes → Codes → Codes
without p s = elim (cut_prefix p s) [ none ↦ s | some rest ↦ rest ]

abbrev pub slash : Codes
slash = b'/' ∷ []

-- What a hop reads of a request: the path, as `EscapedPath` writes it too, and the headers Cookie,
-- X-Forwarded-For and X-Forwarded-Proto.
pub record Asked : Type 0 where
  pub path : Codes
  pub escaped_path : Codes
  pub cookies : List Codes
  pub forwarded_for : List String
  pub forwarded_proto : String

-- What a hop sets in the request that it sends on; its Host is that of the address.
pub record Forwarded : Type 0 where
  pub scheme : String
  pub host : String
  pub path : Codes
  pub raw_path : Codes
  pub cookies : List Codes
  pub forwarded_for : List String
  pub forwarded_proto : String
  pub prefix : String
  pub project : String
  pub task : String
  pub loop : Option String
  -- `Accept-Encoding: identity`
  pub is_plain : Bool

-- `escaped` is `EscapedPath` of the target; `set_for` and `set_proto` are what `SetXForwarded` makes
-- of the two headers.
unfoldable pub rewrite :
    (Url → Codes) → (List String → List String) → String → Asked → Hop → Forwarded
unfolding cut_prefix drop_lock_cookie
rewrite escaped set_for set_proto asked h = record {
  scheme = h.target.scheme;
  host = h.target.host;
  path = codes h.target.path ++ without (codes h.public) asked.path;
  raw_path = escaped h.target ++ without (codes h.public) asked.escaped_path;
  cookies = drop_lock_cookie asked.cookies;
  forwarded_for = set_for asked.forwarded_for;
  forwarded_proto = or_text asked.forwarded_proto set_proto;
  prefix = h.public <> "/";
  project = h.project;
  task = h.task;
  loop = if is_empty h.path then none else some h.path;
  is_plain = is_empty h.path;
}

-- An address as `url.Parse` reads it: `path` is decoded, `raw_path` its text where the default escape
-- of `path` is another one, as that of an encoded slash is, and "" otherwise; `tail` is the query and the
-- fragment.
pub record Location : Type 0 where
  pub scheme : String
  pub host : String
  pub path : Codes
  pub raw_path : Codes
  pub tail : Codes

abbrev pub is_rest : Codes → Bool
is_rest [] = true
is_rest (c ∷ s) = c == b'/'

abbrev pub is_absolute : Codes → Bool
is_absolute path = starts_with slash path

abbrev pub is_own_host : (String → String → Bool) → Hop → String → Bool
is_own_host equal_fold h host = is_empty host || equal_fold host h.target.host

abbrev pub move : Location → Codes → Location
move location path = record {
  scheme = "";
  host = "";
  path = path;
  raw_path = [];
  tail = location.tail;
}

abbrev pub moved : Hop → Location → Option Codes → Option Location
moved h location none = none
moved h location (some rest) =
    if not (is_absolute location.path) || under location.path (codes h.public) || not (is_rest rest)
    then none
    else some (move location (codes h.public ++ rest))

-- The new Location, if there is one: `none` leaves the header as it is. `equal_fold` is
-- `strings.EqualFold`.
unfoldable pub rewrite_location : (String → String → Bool) → Hop → Option Location → Option Location
unfolding cut_prefix under starts_with
rewrite_location equal_fold h none = none
rewrite_location equal_fold h (some location) =
    if is_own_host equal_fold h location.host
    then moved h location (cut_prefix (codes h.target.path) location.path)
    else none

-- The href that the app's tag gives, if it is a path of the site.
abbrev pub own_href : Option Codes → Codes
own_href none = slash
own_href (some m) = if starts_with slash m && not (starts_with (b'/' ∷ slash) m) then m else slash

-- The href of the tag that stands in for the app's.
unfoldable pub base : Hop → Option Codes → Codes
unfolding under starts_with
base h m =
    let href = own_href m in if under href (codes h.public) then href else codes h.public ++ href

-- What `fail` answers to a request that does not navigate, and the page for one that does.
pub data Failure : Type 0 where
  task_unreachable : Failure
  route_unreachable : String → Failure
  -- project, task, route, reason, and whether the task itself runs
  page : String → String → String → String → Bool → Failure

unfoldable pub fail : (ℕ → ℕ) → Registry → Bool → Hop → String → Failure
unfolding route_key
fail unicode_lower r navigates h reason =
    if not navigates
    then (if is_empty h.path then task_unreachable else route_unreachable h.path)
    else (let site = site_at (route_key unicode_lower h.project h.task) r in
        page h.project h.task h.path reason (not (is_empty h.path) && is_some site.task))
