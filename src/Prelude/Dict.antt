-- ===== src/Prelude/Dict.antt =====
-- Go's `map[string]string` as an association list. A map has each key once; the order is that of
-- one iteration. A nil map and an empty one are the same list.
use Prim.Native.String.{String}
use mathlib.Core.Bool.{Bool, false, ◌&&◌}
use mathlib.Core.Option.{Option, none, some}
use mathlib.Core.List.{List, [], ◌∷◌}
use text.Mathlib.Text.{◌==◌ as text_eq}
use boreas.Prelude.Tests.{if◌then◌else◌, ◌==◌}
use boreas.Prelude.Lists.{length, all}

abbrev pub Dict : Type 0
Dict = List (String × String)

unfoldable pub lookup {ℓ} : {V : Type ℓ} → String → List (String × V) → Option V
lookup k [] = none
lookup k ((j, v) ∷ m) = if text_eq j k then some v else lookup k m

abbrev holds : Option String → String → Bool
holds none v = false
holds (some w) v = text_eq w v

-- `maps.Equal`
unfoldable pub dict_eq : Dict → Dict → Bool
unfolding lookup
dict_eq m n = length m == length n && all (λ kv. holds (lookup kv.0 n) kv.1) m
