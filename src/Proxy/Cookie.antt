-- ===== src/Proxy/Cookie.antt =====
-- `dropLockCookie` of internal/infra/proxy/lock.go, on the code points of the Cookie headers.
use boreas.Prelude.{
  ℕ, ◌≡◌, refl, Bool, not, ◌&&◌, ◌||◌, List, [], ◌∷◌, ◌++◌, keep, ◌==◌, if◌then◌else◌,
}
use boreas.Prelude.Text.{codes, is_space}
use boreas.Proxy.Serve.{Codes, starts_with, is_nil}

-- `lockCookie + "="`
abbrev pub lock_cookie : Codes
lock_cookie = codes "boreas_lock="

-- `strings.Join(lines, separator)`
unfoldable pub join_with : Codes → List Codes → Codes
join_with separator [] = []
join_with separator (line ∷ []) = line
join_with separator (line ∷ next ∷ lines) =
    line ++ (separator ++ join_with separator (next ∷ lines))

abbrev begin_with : ℕ → List Codes → List Codes
begin_with c [] = (c ∷ []) ∷ []
begin_with c (part ∷ parts) = (c ∷ part) ∷ parts

-- `strings.Split(line, ";")`
unfoldable pub split_pairs : Codes → List Codes
split_pairs [] = [] ∷ []
split_pairs (c ∷ line) =
    let parts = split_pairs line in if c == b';' then [] ∷ parts else begin_with c parts

unfoldable pub trim_front : Codes → Codes
unfolding is_space
trim_front [] = []
trim_front (c ∷ s) = let rest = trim_front s in if is_space c then rest else c ∷ s

unfoldable pub trim_back : Codes → Codes
unfolding is_space
trim_back [] = []
trim_back (c ∷ s) = let rest = trim_back s in if is_space c && is_nil rest then [] else c ∷ rest

-- `strings.TrimSpace`
unfoldable pub trim_codes : Codes → Codes
unfolding trim_front trim_back
trim_codes s = trim_back (trim_front s)

-- `strings.Contains(line, part)`
unfoldable pub contains_codes : Codes → Codes → Bool
unfolding starts_with
contains_codes part [] = starts_with part []
contains_codes part (c ∷ line) =
    let rest = contains_codes part line in starts_with part (c ∷ line) || rest

abbrev pub is_other : Codes → Bool
is_other pair = not (is_nil (trim_codes pair)) && not (starts_with lock_cookie (trim_codes pair))

abbrev pub as_header : List Codes → List Codes
as_header [] = []
as_header (pair ∷ pairs) = trim_codes (join_with (b';' ∷ []) (pair ∷ pairs)) ∷ []

-- The Cookie headers that the target gets.
unfoldable pub drop_lock_cookie : List Codes → List Codes
unfolding join_with split_pairs trim_codes contains_codes starts_with
drop_lock_cookie lines =
    let line = join_with (codes "; ") lines in
    if contains_codes lock_cookie line then as_header (keep is_other (split_pairs line)) else lines

drop_lock_cookie_test :
    drop_lock_cookie (codes "a=1; boreas_lock=2.x" ∷ codes "b=3" ∷ []) ≡ codes "a=1; b=3" ∷ []
unfolding drop_lock_cookie
drop_lock_cookie_test = refl
