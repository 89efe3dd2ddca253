-- ===== src/Proxy/Registry/Longest.antt =====
-- The order of the routes of a site: the longest path that matches wins.
use Prim.Native.String.{len}
use mathlib.Core.List.{Memᴰ}
use boreas.Prelude.Find.{all_sound}
use boreas.Prelude.{
  ◌≤◌, ◌≡◌, refl, Bool, true, false, ◌&&◌, some, List, [], ◌∷◌, leb, arith, find, all,
  if◌then◌else◌, Bool-cases, inl, inr,
}
use boreas.Proxy.Registry.{Hop, insert_hop, sort_hops}

abbrev pub is_within : Hop → Hop → Bool
is_within h g = leb (len g.path) (len h.path)

-- No path is longer than one before it.
abbrev is_falling : List Hop → Bool
is_falling [] = true
is_falling (h ∷ hs) = all (is_within h) hs && is_falling hs

all-insert_hop :
    (p : Hop → Bool) (h : Hop) (hs : List Hop)
    → p h ≡ true
    → all p hs ≡ true
    → all p (insert_hop h hs) ≡ true
unfolding insert_hop
all-insert_hop p h [] e f = ground (arith, e)
all-insert_hop p h (g ∷ gs) e f = ground (arith, all-insert_hop p h gs e, e, f)

within_trans :
    (h g : Hop) (hs : List Hop)
    → is_within h g ≡ true
    → all (is_within g) hs ≡ true
    → all (is_within h) hs ≡ true
within_trans h g [] e f = refl
within_trans h g (x ∷ hs) e f = ground (arith, within_trans h g hs e)

is_falling-insert_hop :
    (h : Hop) (hs : List Hop) → is_falling hs ≡ true → is_falling (insert_hop h hs) ≡ true
unfolding insert_hop
is_falling-insert_hop h [] e = refl
is_falling-insert_hop h (g ∷ gs) e = elim (Bool-cases (leb (len g.path) (len h.path))) [
  | inl t ↦ ground (arith, within_trans h g gs, t, e)
  | inr f ↦ ground (arith, all-insert_hop (is_within g) h gs, is_falling-insert_hop h gs, f, e)
]

is_falling-sort_hops : (hs : List Hop) → is_falling (sort_hops hs) ≡ true
unfolding sort_hops
is_falling-sort_hops [] = refl
is_falling-sort_hops (h ∷ hs) = is_falling-insert_hop h (sort_hops hs) (is_falling-sort_hops hs)

Memᴰ-if :
    {g : Hop} (b : Bool) {xs ys : List Hop} → Memᴰ g xs → Memᴰ g ys → Memᴰ g (if b then xs else ys)
Memᴰ-if true m n = m
Memᴰ-if false m n = n

Memᴰ-insert_hop : (h : Hop) (hs : List Hop) (g : Hop) → Memᴰ g (h ∷ hs) → Memᴰ g (insert_hop h hs)
unfolding insert_hop
Memᴰ-insert_hop h [] g m = m
Memᴰ-insert_hop h (x ∷ xs) g m =
    Memᴰ-if (leb (len x.path) (len h.path)) m (later m (Memᴰ-insert_hop h xs g))
  where
    later :
        Memᴰ g (h ∷ x ∷ xs)
        → (Memᴰ g (h ∷ xs) → Memᴰ g (insert_hop h xs))
        → Memᴰ g (x ∷ insert_hop h xs)
    later (Memᴰ.head e) in_rest = Memᴰ.tail (in_rest (Memᴰ.head e))
    later (Memᴰ.tail (Memᴰ.head e)) in_rest = Memᴰ.head e
    later (Memᴰ.tail (Memᴰ.tail n)) in_rest = Memᴰ.tail (in_rest (Memᴰ.tail n))

Memᴰ-sort_hops : (hs : List Hop) (g : Hop) → Memᴰ g hs → Memᴰ g (sort_hops hs)
unfolding sort_hops
Memᴰ-sort_hops [] g m = m
Memᴰ-sort_hops (h ∷ hs) g (Memᴰ.head e) = Memᴰ-insert_hop h (sort_hops hs) g (Memᴰ.head e)
Memᴰ-sort_hops (h ∷ hs) g (Memᴰ.tail m) =
    Memᴰ-insert_hop h (sort_hops hs) g (Memᴰ.tail (Memᴰ-sort_hops hs g m))

find_longest :
    (p : Hop → Bool) (hs : List Hop) (h : Hop)
    → is_falling hs ≡ true
    → find p hs ≡ some h
    → (g : Hop) → Memᴰ g hs
    → p g ≡ true
    → len g.path ≤ len h.path
find_longest p [] h f e g m q = cc
find_longest p (x ∷ xs) h f e g m q = elim (Bool-cases (p x)) [
  | inl t ↦ let same : x ≡ h = ground (arith, t, e) in rw (← same) (first m)
  | inr n ↦ later n m (find_longest p xs h (ground (arith, f)) (ground (arith, e, n)) g)
]
  where
    first : Memᴰ g (x ∷ xs) → len g.path ≤ len x.path
    first (Memᴰ.head e) = rw e ground arith
    first (Memᴰ.tail m) = let w = all_sound (is_within x) m (ground (arith, f)) in ground (arith, w)

    later :
        p x ≡ false
        → Memᴰ g (x ∷ xs)
        → (Memᴰ g xs → p g ≡ true → len g.path ≤ len h.path)
        → len g.path ≤ len h.path
    later n (Memᴰ.head e) in_rest = let no : p x ≡ true = rw (← e) q in ground (arith, n, no)
    later n (Memᴰ.tail m) in_rest = in_rest m q

-- Of the routes of a site, in the order that `set_routes` gives them, the first to match a request is
-- one with the longest path: no route that matches as well has a longer one.
pub sort_hops-longest :
    (p : Hop → Bool) (hs : List Hop) (h : Hop)
    → find p (sort_hops hs) ≡ some h
    → (g : Hop) → Memᴰ g hs
    → p g ≡ true
    → len g.path ≤ len h.path
sort_hops-longest p hs h e g m =
    find_longest p (sort_hops hs) h (is_falling-sort_hops hs) e g (Memᴰ-sort_hops hs g m)
