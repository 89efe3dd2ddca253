-- ===== src/Bora/Code.antt =====
-- `searchCode`, `readFile`, `codeHistory`, `codeDiff`, `blame`, `askSourcebot` and `setTitle` of
-- internal/service/bora_tools.go. What a code tool reads may hold a planted instruction, so each taints
-- the answer first, whatever comes of it.
use text.Mathlib.Text.{◌==◌ as text_eq}
use Prim.Native.Char.{code}
use boreas.Prelude.{
  ℕ, ◌+◌, String, Bool, true, false, not, ◌&&◌, ◌||◌, List, [], ◌∷◌, ◌++◌, any, ◌-◌, ltb, ◌==◌,
  if◌then◌else◌,
}
use boreas.Prelude.Text.{is_blank, is_empty, is_space, or_text, trim_space, ◌<>◌}
use boreas.Prelude.Int.{ℤ, pos, negsuc}
use boreas.Core.Errors.{Err, Result, ok, err}
use boreas.App.{tick_of}
use boreas.Bora.Aid.{Aid, CodeIndex, CodeMatch, CodeFile, BlameRange}
use boreas.Bora.State.{Bora, CodeSource, Tool, said, pure, refuse, update, ◌>>=◌, ◌>>◌}
use boreas.Bora.Lookup
use boreas.Bora.Propose.{truncate}
use boreas.Bora.Redact.{redact}
use boreas.Bora.Diff.{commit_list, commit_text, diff_report}

abbrev pub taint : Bora → Bora
taint b = record b { tainted = true }

-- `codeError`: what the code search said is passed on.
abbrev pub code_error : {A : Type 0} → Result Err A → Result Err A
code_error (ok a) = ok a
code_error (err e) = err (said ("error: " <> e.text))

-- A call of the code search.
abbrev pub consult : {A : Type 0} → (ℕ → Result Err A) → Tool A
consult f s = (code_error (f s.world.tick), record s { world = tick_of s.world })

abbrev pub same_source : CodeSource → CodeSource → Bool
same_source a b = text_eq a.repo b.repo && text_eq a.path b.path && text_eq a.url b.url

-- `strings.HasSuffix(path, "/")`
pub is_folder : String → Bool
is_folder String.[] = false
is_folder (String.◌∷◌ c s) = let rest = is_folder s in if is_empty s then code c == b'/' else rest

abbrev pub source_of : CodeFile → CodeSource
source_of file = record { repo = file.repo; path = file.path; url = file.url }

-- A file is listed under the answer once, a folder never.
unfoldable pub cite : CodeFile → Bora → Bora
unfolding is_folder
cite file b =
    if not (is_folder file.path) && not (any (same_source (source_of file)) b.sources)
    then record b { sources = b.sources ++ source_of file ∷ [] }
    else b

abbrev pub match_text : (ℤ → String) → CodeMatch → String
match_text decimal m =
    m.repo <> " " <> m.path <> ":" <> decimal m.line <> "\n" <> m.snippet <> "\n\n"

pub match_texts : (ℤ → String) → List CodeMatch → String
match_texts decimal [] = ""
match_texts decimal (m ∷ ms) = match_text decimal m <> match_texts decimal ms

abbrev pub minus : ℕ → ℕ → ℤ
minus a b = if ltb a b then negsuc (b - a - 1) else pos (a - b)

-- A sum of lines, which are far from the bounds of an int.
abbrev pub add_int : ℤ → ℤ → ℤ
add_int (pos a) (pos b) = pos (a + b)
add_int (negsuc a) (negsuc b) = negsuc (a + b + 1)
add_int (pos a) (negsuc b) = minus a (b + 1)
add_int (negsuc a) (pos b) = minus b (a + 1)

pub blame_texts : (ℤ → String) → List BlameRange → String
blame_texts decimal [] = ""
blame_texts decimal (r ∷ rs) =
    "lines "
    <> decimal r.start
    <> "-"
    <> decimal (add_int (add_int r.start r.lines) (negsuc 0))
    <> ": "
    <> commit_text decimal r.commit
    <> "\n"
    <> blame_texts decimal rs

abbrev pub require_query : String → Tool (Unit {0})
require_query query = if is_blank query then refuse "error: query is empty" else pure tt

module _ (aid : Aid) (index : CodeIndex) where
  unfoldable pub search_code : String → String → Tool String
  unfolding Lookup.code match_texts
  search_code project query = do
    update taint
    slug ← Lookup.code project
    require_query query
    matches ← consult λ n. index.search n slug query
    pure (or_text (match_texts aid.decimal matches) "no matches")

  unfoldable pub read_file : String → String → String → String → Tool String
  unfolding Lookup.repo cite
  read_file project repo path ref = do
    update taint
    slug ← Lookup.repo repo project
    file ← consult λ n. index.read n slug repo ref path
    update (cite file)
    pure (or_text file.content "empty")

  unfoldable pub code_history : String → String → String → String → String → Tool String
  unfolding Lookup.repo commit_list
  code_history project repo ref path query = do
    update taint
    slug ← Lookup.repo repo project
    found ← consult λ n. index.commits n slug repo ref path query
    pure (or_text (commit_list aid.decimal found.0 found.1) "no commits")

  unfoldable pub code_diff : String → String → String → String → String → Tool String
  unfolding Lookup.repo diff_report
  code_diff project repo base head path = do
    update taint
    slug ← Lookup.repo repo project
    if is_empty base || is_empty head then refuse "error: a diff needs base and head" else pure tt
    found ← consult λ n. index.commits n slug repo (base <> ".." <> head) path ""
    changes ← consult λ n. index.diff n slug repo base head path
    pure (diff_report aid.decimal found.0 found.1 changes)

  unfoldable pub blame : String → String → String → String → Tool String
  unfolding Lookup.repo blame_texts
  blame project repo path ref = do
    update taint
    slug ← Lookup.repo repo project
    ranges ← consult λ n. index.blame n slug repo ref path
    pure (or_text (blame_texts aid.decimal ranges) "no lines")

  unfoldable pub ask_sourcebot : String → String → Tool String
  unfolding Lookup.code
  ask_sourcebot project query = do
    update taint
    slug ← Lookup.code project
    require_query query
    reply ← consult λ n. index.ask n slug query
    pure (or_text reply "no answer")

-- `strings.Join(strings.Fields(text), " ")`: a gap of white space is one blank, none at the ends.
pub squeeze : Bool → String → String
unfolding is_space
squeeze gap String.[] = String.[]
squeeze gap (String.◌∷◌ c s) =
    let after_gap = squeeze true s in
    let after_word = squeeze false s in
    if is_space (code c)
    then after_gap
    else if gap
    then " " <> String.◌∷◌ c after_word
    else String.◌∷◌ c after_word

unfoldable pub one_line : String → String
unfolding squeeze
one_line s = squeeze false (trim_space s)

abbrev pub titled : String → Bora → Bora
titled title b = if is_empty b.title && not (is_empty title) then record b { title = title } else b

-- The first title that is not empty stays.
unfoldable pub set_title : Aid → String → Tool String
unfolding one_line
set_title aid title = do
  update (titled (truncate (one_line (redact aid.replace_all title)) 60))
  pure "done"
