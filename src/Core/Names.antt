-- ===== src/Core/Names.antt =====
-- The names that users choose: project slugs, task names, environment variables, push tokens.
use Prim.Native.String.{len}
use text.Mathlib.Text.{◌==◌ as text_eq}
use boreas.Prelude.{
  ℕ, String, Bool, false, ◌&&◌, ◌||◌, List, [], ◌∷◌, ltb, leb, ◌==◌, length, all, any,
  if◌then◌else◌,
}
use boreas.Prelude.Text.{codes, is_empty, is_lower, is_alnum, is_digit, ◌<>◌}
use boreas.Prelude.Dict.{Dict}
use boreas.Core.Errors.{Check, ok, err, invalid, require}

-- `^[first][rest]{0,62}$`
abbrev pub bounded_name : (ℕ → Bool) → (ℕ → Bool) → List ℕ → Bool
bounded_name first rest [] = false
bounded_name first rest (c ∷ cs) = first c && all rest cs && leb (length cs) 62

abbrev pub is_name_char : ℕ → Bool
is_name_char c = is_alnum c || c == b'.' || c == b'_' || c == b'-'

abbrev pub is_slug_first : ℕ → Bool
is_slug_first c = is_lower c || is_digit c

abbrev pub is_slug_char : ℕ → Bool
is_slug_char c = is_lower c || is_digit c || c == b'-'

abbrev pub task_name_pattern : String → Bool
task_name_pattern name = bounded_name is_alnum is_name_char (codes name)

abbrev pub project_slug_regexp : String → Bool
project_slug_regexp slug = bounded_name is_slug_first is_slug_char (codes slug)

abbrev one_of : List String → String → Bool
one_of names s = any (λ n. text_eq n s) names

unfoldable pub validate_task_name : String → Check
validate_task_name name =
    require (task_name_pattern name)
      (invalid "task name must match ^[A-Za-z0-9][A-Za-z0-9._-]{0,62}$")

abbrev pub reserved_slugs : List String
reserved_slugs = "api" ∷ "health" ∷ "metrics" ∷ "static" ∷ "admin" ∷ "legal" ∷ []

unfoldable pub validate_project_slug : String → Check
validate_project_slug slug =
    if project_slug_regexp slug
    then (if one_of reserved_slugs slug
        then err (invalid ("project slug is reserved: " <> slug))
        else ok tt)
    else err (invalid "project slug must match ^[a-z0-9][a-z0-9-]{0,62}$")

abbrev pub reserved_env : List String
reserved_env = "BOREAS_PROJECT" ∷ "BOREAS_TASK" ∷ "BOREAS_PORT" ∷ "BASE_HREF" ∷ []

-- One key of `ValidateEnv`.
abbrev pub validate_env_key : String → Check
validate_env_key key =
    if is_empty key || any (λ c. c == b'=' || c == 0) (codes key)
    then err
        (invalid "environment variable names must be non-empty and contain neither '=' nor NUL")
    else if one_of reserved_env key
    then err (invalid ("environment variable is reserved by Boreas: " <> key))
    else ok tt

unfoldable pub validate_env : Dict → Check
validate_env [] = ok tt
validate_env ((key, value) ∷ env) = elim (validate_env_key key) [
  | ok _ ↦ validate_env env
  | err e ↦ err e
]

abbrev is_token_stop : ℕ → Bool
is_token_stop c = c == b',' || c == b'/' || c == b'?' || c == b' ' || c == 9 || c == 13 || c == 10

unfoldable pub validate_push_token : String → Check
validate_push_token token =
    if is_empty token || ltb 4096 (len token) || any is_token_stop (codes token)
    then err (
        invalid
          "push token must be 1-4096 bytes and contain no comma, slash, question mark, or whitespace")
    else ok tt
