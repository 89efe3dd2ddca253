-- ===== src/Prelude/Text.antt =====
-- Text: Go's strings by their characters, `strings.TrimSpace`, and the tests of patterns.
use Prim.Native.Nat.{ℕ}
use Prim.Native.Char.{code}
use Prim.Native.String
use Prim.Native.String.{String}
use mathlib.Core.Path.{◌≡◌, refl}
use mathlib.Core.Bool.{Bool, true, false, ◌&&◌, ◌||◌}
use mathlib.Core.List.{List, [], ◌∷◌}
use mathlib.Core.Option.{Option, none, some}
use boreas.Prelude.Tests.{leb, ◌==◌, if◌then◌else◌}

infixr 65 ◌<>◌
abbrev pub ◌<>◌ : String → String → String
s <> t = String.◌++◌ s t

abbrev pub is_empty : String → Bool
is_empty String.[] = true
is_empty (String.◌∷◌ _ _) = false

-- `cmp.Or(s, t)`
abbrev pub or_text : String → String → String
or_text s t = if is_empty s then t else s

abbrev pub codes : String → List ℕ
codes String.[] = []
codes (String.◌∷◌ c s) = code c ∷ codes s

abbrev pub is_lower : ℕ → Bool
is_lower c = leb b'a' c && leb c b'z'

abbrev pub is_upper : ℕ → Bool
is_upper c = leb b'A' c && leb c b'Z'

abbrev pub is_digit : ℕ → Bool
is_digit c = leb b'0' c && leb c b'9'

abbrev pub is_alnum : ℕ → Bool
is_alnum c = is_lower c || is_upper c || is_digit c

-- `unicode.IsSpace`
unfoldable pub is_space : ℕ → Bool
is_space c =
    (leb 9 c && leb c 13)
    || c == 32
    || c == 0x85
    || c == 0xa0
    || c == 0x1680
    || (leb 0x2000 c && leb c 0x200a)
    || c == 0x2028
    || c == 0x2029
    || c == 0x202f
    || c == 0x205f
    || c == 0x3000

-- `strings.TrimSpace`: white space at the front goes, and a run of white space that ends the text.
pub trim_left : String → String
unfolding is_space
trim_left String.[] = String.[]
trim_left (String.◌∷◌ c s) =
    let rest = trim_left s in if is_space (code c) then rest else String.◌∷◌ c s

pub trim_right : String → String
unfolding is_space
trim_right String.[] = String.[]
trim_right (String.◌∷◌ c s) =
    let rest = trim_right s in
    if is_space (code c) && is_empty rest then String.[] else String.◌∷◌ c rest

unfoldable pub trim_space : String → String
unfolding trim_left trim_right
trim_space s = trim_right (trim_left s)

-- `strings.TrimSpace(s) == ""`
abbrev pub is_blank : String → Bool
is_blank s = is_empty (trim_space s)

trim_space_test : trim_space " \ta b \n" ≡ "a b"
unfolding trim_space
trim_space_test = refl

-- `strings.CutPrefix(s, p)`: the rest of the text behind the prefix.
unfoldable pub cut_text : String → String → Option String
cut_text String.[] s = some s
cut_text (String.◌∷◌ c p) String.[] = none
cut_text (String.◌∷◌ c p) (String.◌∷◌ d s) =
    let rest = cut_text p s in if code c == code d then rest else none

abbrev is_found : Option String → Bool
is_found none = false
is_found (some s) = true

-- `strings.HasPrefix(s, p)`
abbrev pub has_prefix : String → String → Bool
has_prefix p s = is_found (cut_text p s)

-- `strings.TrimPrefix(s, p)`
abbrev pub trim_prefix : String → String → String
trim_prefix p s = elim (cut_text p s) [ none ↦ s | some rest ↦ rest ]

-- `strings.Contains(s, t)`
unfoldable pub contains_text : String → String → Bool
unfolding cut_text
contains_text t String.[] = has_prefix t String.[]
contains_text t (String.◌∷◌ c s) =
    let rest = contains_text t s in has_prefix t (String.◌∷◌ c s) || rest
