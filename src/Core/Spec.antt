-- ===== src/Core/Spec.antt =====
-- `ContainerSpec.Validate` and `ValidateVolumes` of internal/core/core.go, with `path.Clean` of a
-- rooted path.
use text.Mathlib.Text.{◌==◌ as text_eq}
use Prim.Native.Char.{code}
use boreas.Prelude.{
  String, ◌≡◌, refl, Bool, false, not, ◌||◌, List, [], ◌∷◌, ◌==◌, any, if◌then◌else◌,
}
use boreas.Prelude.Int.{between}
use boreas.Prelude.Text.{codes, is_blank, is_empty, ◌<>◌}
use boreas.Prelude.Dict.{Dict}
use boreas.Core.Errors.{Check, ok, err, invalid, require, ◌>>◌}
use boreas.Core.Names.{validate_project_slug, validate_task_name, validate_env}
use boreas.Core.Model.{ContainerSpec}

-- `strings.Split(s, "/")`: the first segment and the others.
pub record Segments : Type 0 where
  pub head : String
  pub tail : List String

pub segments : String → Segments
segments String.[] = record { head = ""; tail = [] }
segments (String.◌∷◌ c s) =
    let rest = segments s in
    if code c == b'/'
    then record { head = ""; tail = rest.head ∷ rest.tail }
    else record { head = String.◌∷◌ c rest.head; tail = rest.tail }

-- One segment of `path.Clean`; the stack has its top at the head.
abbrev push_segment : List String → String → List String
push_segment [] s = if is_empty s || text_eq s "." || text_eq s ".." then [] else s ∷ []
push_segment (top ∷ stack) s =
    if is_empty s || text_eq s "."
    then top ∷ stack
    else if text_eq s ".."
    then stack
    else s ∷ top ∷ stack

pub clean_segments : List String → List String → List String
clean_segments stack [] = stack
clean_segments stack (s ∷ rest) = clean_segments (push_segment stack s) rest

pub join_reversed : List String → String → String
join_reversed [] after = after
join_reversed (s ∷ stack) after = join_reversed stack ("/" <> s <> after)

abbrev or_root : String → String
or_root s = if is_empty s then "/" else s

-- `path.Clean` of a path that starts with "/".
unfoldable pub clean_rooted : String → String
unfolding segments clean_segments join_reversed
clean_rooted path = or_root (join_reversed (clean_segments [] (segments path).tail) "")

clean_rooted_test : clean_rooted "/a//b/../c/." ≡ "/a/c"
unfolding clean_rooted
clean_rooted_test = refl

unfoldable pub is_abs : String → Bool
is_abs String.[] = false
is_abs (String.◌∷◌ c s) = code c == b'/'

-- One entry of `ValidateVolumes`.
unfoldable pub validate_volume : String → String → Check
unfolding is_abs
validate_volume target folder =
    if not (is_abs target)
      || not (text_eq (clean_rooted target) target)
      || text_eq target "/"
      || is_empty folder
      || text_eq folder "."
      || text_eq folder ".."
      || any (λ c. c == b'/') (codes folder)
    then err (
        invalid ("volume must map a clean absolute path other than / to a folder name: " <> target))
    else ok tt

unfoldable pub validate_volumes : Dict → Check
validate_volumes [] = ok tt
validate_volumes ((target, folder) ∷ volumes) = elim (validate_volume target folder) [
  | ok _ ↦ validate_volumes volumes
  | err e ↦ err e
]

unfoldable pub validate_labels : Dict → Check
validate_labels [] = ok tt
validate_labels ((key, value) ∷ labels) =
    let rest = validate_labels labels in
    if text_eq key "managed-by" || text_eq key "project" || text_eq key "task"
    then err (invalid ("container label is reserved by Boreas: " <> key))
    else rest

unfoldable pub validate : ContainerSpec → Check
validate s = do
  validate_project_slug s.project
  validate_task_name s.name
  require (not (is_blank s.image)) (invalid "image is required")
  require (between 1 65535 s.port) (invalid "port must be between 1 and 65535")
  validate_env s.env
  validate_labels s.labels
  validate_volumes s.volumes
