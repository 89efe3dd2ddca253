-- ===== src/Core/Revision.antt =====
-- `ValidRepoName`, `Revision.Validate` and `Build.Validate` of internal/core/core.go. `parse` is
-- `url.Parse`, of which the scheme and the host are read.
use Prim.Native.String.{len, count}
use text.Mathlib.Text.{◌==◌ as text_eq}
use boreas.Prelude.{
  ℕ, String, Bool, true, false, not, ◌&&◌, ◌||◌, Option, none, some, List, [], ◌∷◌, all, any,
  length, ltb, leb, ◌==◌, if◌then◌else◌,
}
use boreas.Prelude.Int.{between}
use boreas.Prelude.Text.{codes, is_alnum, is_digit, is_empty}
use boreas.Core.Enums.{BuildState}
use boreas.Core.Errors.{Check, ok, err, invalid}
use boreas.Core.Model.{Build, Revision}

abbrev pub is_repo_char : ℕ → Bool
is_repo_char c = is_alnum c || c == b'_' || c == b'.' || c == b'-'

-- Segments of `[\w.-]+`: `seen` says whether this one has a character, `slashed` whether one ended.
unfoldable pub repo_segments : Bool → Bool → List ℕ → Bool
repo_segments slashed seen [] = slashed && seen
repo_segments slashed seen (c ∷ cs) =
    let next = repo_segments true false cs in
    let more = repo_segments slashed true cs in
    if c == b'/' then seen && next else is_repo_char c && more

unfoldable pub valid_repo_name : String → Bool
unfolding repo_segments
valid_repo_name name = leb (len name) 200 && repo_segments false false (codes name)

abbrev pub is_hex : ℕ → Bool
is_hex c = is_digit c || (leb b'a' c && leb c b'f')

-- `^[0-9a-f]{40,64}$`
abbrev pub full_commit : List ℕ → Bool
full_commit cs = all is_hex cs && leb 40 (length cs) && leb (length cs) 64

unfoldable pub validate_revision : Revision → Check
unfolding valid_repo_name
validate_revision r =
    if not (is_empty r.repo && is_empty r.commit)
      && not (valid_repo_name r.repo && full_commit (codes r.commit))
    then err (
        invalid
          "repository and revision come together: the repository as Sourcebot names it, such as github.com/org/repo, and a full commit hash")
    else ok tt

abbrev pub is_named_state : BuildState → Bool
is_named_state BuildState.none = false
is_named_state (BuildState.unnamed s) = false
is_named_state _ = true

abbrev is_control : ℕ → Bool
is_control c = ltb c 32 || (leb 127 c && ltb c 160)

-- The scheme and the host of an address that parses.
abbrev is_web : Option (String × String) → Bool
is_web none = false
is_web (some (scheme, host)) =
    not (is_empty host) && (text_eq scheme "http" || text_eq scheme "https")

unfoldable pub validate_build : (String → Option (String × String)) → Build → Check
validate_build parse b =
    if not (is_named_state b.state)
    then err (invalid "build state must be running, success, failure, or canceled")
    else if ltb 100 (count b.stage) || any is_control (codes b.stage)
    then err (invalid "build stage must be at most 100 printable characters")
    else if not (between 0 100 b.progress)
    then err (invalid "build progress must be between 0 and 100")
    else if not (is_empty b.url) && (ltb 2048 (len b.url) || not (is_web (parse b.url)))
    then err (invalid "build url must be an absolute http or https URL")
    else ok tt
