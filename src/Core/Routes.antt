-- ===== src/Core/Routes.antt =====
-- `CleanRoutes` of internal/core/core.go. `clean_url` is `CleanRouteURL`, `none` where it refuses:
-- it rests on net/url.
pub mod Laws
use Prim.Native.Nat.{Ordering}
use Prim.Native.Char.{code}
use Prim.Native.String
use Prim.Native.String.{len, compare}
use text.Mathlib.Text.{◌==◌ as text_eq}
use boreas.Prelude.{
  ℕ, String, ◌≡◌, refl, Bool, true, false, not, ◌&&◌, ◌||◌, Option, none, some, List, [], ◌∷◌, ◌++◌,
  any, length, ltb, ◌==◌, if◌then◌else◌,
}
use boreas.Prelude.Text.{codes, is_alnum, is_empty, ◌<>◌}
use boreas.Core.Errors.{Err, Result, ok, err, invalid, ◌>>=◌}
use boreas.Core.Model.{Route}

-- `strings.TrimSuffix(path, "/")`
unfoldable pub trim_slash : String → String
trim_slash String.[] = ""
trim_slash (String.◌∷◌ c s) =
    let rest = trim_slash s in if code c == b'/' && is_empty s then "" else String.◌∷◌ c rest

abbrev pub is_route_char : ℕ → Bool
is_route_char c = is_alnum c || c == b'_' || c == b'-'

-- Inside a segment that has a character or has none yet.
unfoldable pub in_segment : Bool → List ℕ → Bool
in_segment seen [] = seen
in_segment seen (c ∷ cs) =
    let next = in_segment false cs in
    let more = in_segment true cs in if c == b'/' then seen && next else is_route_char c && more

-- `^(/[A-Za-z0-9_-]+)+$`
unfoldable pub route_path_pattern : List ℕ → Bool
unfolding in_segment
route_path_pattern [] = false
route_path_pattern (c ∷ cs) = c == b'/' && in_segment false cs

-- The reason to refuse a route, whose path without its slash is `p`.
unfoldable pub refusal : List Route → Route → String → Option String → Option String
unfolding route_path_pattern
refusal clean r p url =
    if text_eq r.path "/"
    then some "/ is the task itself"
    else if ltb 64 (len p) || not (route_path_pattern (codes p))
    then some "path must start with / and use letters, digits, - and _"
    else if any (λ (c : Route). text_eq c.path p) clean
    then some "path is taken"
    else elim url [ none ↦ some "address must be http(s)://host[:port][/path]" | some _ ↦ none ]

abbrev pub or_blank : Option String → String
or_blank none = ""
or_blank (some s) = s

abbrev pub clean_route : Route → String → Option String → Route
clean_route r p url = record { path = p; url = or_blank url; any_cert = r.any_cert }

unfoldable pub clean_from :
    (String → Option String) → List Route → List Route → Result Err (List Route)
unfolding trim_slash refusal
clean_from clean_url clean [] = ok clean
clean_from clean_url clean (r ∷ routes) =
    let p = trim_slash r.path in
    let url = clean_url r.url in
    elim (refusal clean r p url) [
      | some reason ↦ err (invalid (r.path <> ": " <> reason))
      | none ↦ clean_from clean_url (clean ++ clean_route r p url ∷ []) routes
    ]

-- `strings.Compare(a, b) <= 0`
abbrev pub path_le : Route → Route → Bool
path_le a b = elim (compare a.path b.path) [ Ordering.gt ↦ false | _ ↦ true ]

unfoldable pub insert_route : Route → List Route → List Route
insert_route r [] = r ∷ []
insert_route r (s ∷ routes) =
    let rest = insert_route r routes in if path_le r s then r ∷ s ∷ routes else s ∷ rest

-- `slices.SortFunc` by path: the paths differ, so every sort gives this order.
unfoldable pub sort_routes : List Route → List Route
unfolding insert_route
sort_routes [] = []
sort_routes (r ∷ routes) = insert_route r (sort_routes routes)

unfoldable pub clean_routes : (String → Option String) → List Route → Result Err (List Route)
unfolding clean_from sort_routes
clean_routes clean_url routes =
    if ltb 20 (length routes)
    then err (invalid "at most 20 routes")
    else do clean ← clean_from clean_url [] routes; ok (sort_routes clean)

abbrev route : String → String → Route
route path url = record { path = path; url = url; any_cert = false }

clean_routes_test :
    clean_routes (λ u. some u) (route "/b/" "u" ∷ route "/a" "v" ∷ [])
    ≡ ok (route "/a" "v" ∷ route "/b" "u" ∷ [])
unfolding clean_routes
clean_routes_test = refl

abbrev bool_eq : Bool → Bool → Bool
bool_eq true b = b
bool_eq false b = not b

-- `slices.Equal`
unfoldable pub routes_eq : List Route → List Route → Bool
routes_eq [] [] = true
routes_eq (r ∷ rs) (s ∷ ss) =
    text_eq r.path s.path && text_eq r.url s.url && bool_eq r.any_cert s.any_cert && routes_eq rs ss
routes_eq _ _ = false
