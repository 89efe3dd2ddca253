-- ===== src/Core/Routes/Laws.antt =====
-- What `CleanRoutes` lets through.
use Prim.Native.String.{len}
use boreas.Prelude.{
  suc, ◌+◌, ◌≤◌, String, ◌≡◌, refl, inl, inr, Bool, true, ◌&&◌, Option, List, [], ◌∷◌, ◌++◌, arith,
  all, length, leb,
}
use boreas.Prelude.Text.{codes}
use boreas.Core.Errors.{ok, Result-cases}
use boreas.Core.Model.{Route}
use boreas.Core.Routes.{
  trim_slash, refusal, clean_route, clean_from, sort_routes, insert_route, clean_routes,
  route_path_pattern,
}

-- A path that a route may have.
abbrev pub is_route_path : Route → Bool
is_route_path r = leb (len r.path) 64 && route_path_pattern (codes r.path)

length-concat : (rs : List Route) (x : Route) → length (rs ++ x ∷ []) ≡ suc (length rs)
length-concat [] x = refl
length-concat (r ∷ rs) x = ground (arith, length-concat rs x)

all-concat :
    (p : Route → Bool) (rs : List Route) (x : Route) → all p (rs ++ x ∷ []) ≡ (all p rs && p x)
all-concat p [] x = ground arith
all-concat p (r ∷ rs) x = ground (arith, all-concat p rs x)

clean_from-all :
    (clean_url : String → Option String) (clean routes found : List Route)
    → all is_route_path clean ≡ true
    → clean_from clean_url clean routes ≡ ok found
    → (all is_route_path found ≡ true) × (length found ≡ length clean + length routes)
unfolding clean_from refusal
clean_from-all clean_url clean [] found a h = (ground arith, ground arith)
clean_from-all clean_url clean (r ∷ routes) found a h =
    let p = trim_slash r.path in
    let next = clean ++ clean_route r p (clean_url r.url) ∷ [] in
    (
      ground (
        arith,
        all-concat is_route_path clean (clean_route r p (clean_url r.url)),
        clean_from-all clean_url next routes found,
      ),
      ground (
        arith,
        length-concat clean (clean_route r p (clean_url r.url)),
        all-concat is_route_path clean (clean_route r p (clean_url r.url)),
        clean_from-all clean_url next routes found,
      ),
    )

all-insert :
    (p : Route → Bool) (x : Route) (rs : List Route) → all p (insert_route x rs) ≡ (p x && all p rs)
unfolding insert_route
all-insert p x [] = refl
all-insert p x (r ∷ rs) = ground (arith, all-insert p x rs)

length-insert : (x : Route) (rs : List Route) → length (insert_route x rs) ≡ suc (length rs)
unfolding insert_route
length-insert x [] = refl
length-insert x (r ∷ rs) = ground (arith, length-insert x rs)

all-sort : (p : Route → Bool) (rs : List Route) → all p (sort_routes rs) ≡ all p rs
unfolding sort_routes
all-sort p [] = refl
all-sort p (r ∷ rs) = ground (arith, all-insert p r (sort_routes rs), all-sort p rs)

length-sort : (rs : List Route) → length (sort_routes rs) ≡ length rs
unfolding sort_routes
length-sort [] = refl
length-sort (r ∷ rs) = ground (arith, length-insert r (sort_routes rs), length-sort rs)

-- Where `CleanRoutes` accepts a list, it gives one route for each that was sent, at most twenty, and
-- each path is one or more segments of letters, digits, - and _ behind a slash, in at most 64
-- characters.
pub clean_routes-all :
    (clean_url : String → Option String) (routes found : List Route)
    → clean_routes clean_url routes ≡ ok found
    → (length found ≡ length routes) × (length routes ≤ 20) × (all is_route_path found ≡ true)
unfolding clean_routes
clean_routes-all clean_url routes found h = elim (Result-cases (clean_from clean_url [] routes)) [
  | inl (clean, e) ↦
      let (paths, size) = clean_from-all clean_url [] routes clean refl e in
      (
        ground (arith, e, length-sort clean, size),
        ground (arith, e),
        ground (arith, e, all-sort is_route_path clean, paths),
      )
  | inr (x, e) ↦ ground (arith, e)
]
