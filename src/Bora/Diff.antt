-- ===== src/Bora/Diff.antt =====
-- The texts of the code tools of internal/service/bora_tools.go: `commitList`, and the files and hunks
-- of `codeDiff`. Text is valid UTF-8, so `ToValidUTF8` drops the rune that a cut in bytes splits.
use Prim.Native.Char.{code}
use boreas.Prelude.{ℕ, suc, ◌+◌, ◌-◌, String, List, [], ◌∷◌, length, ltb, leb, if◌then◌else◌}
use boreas.Prelude.Text.{is_empty, ◌<>◌}
use boreas.Prelude.Int.{ℤ, pos, negsuc}
use boreas.Bora.Aid.{Commit, CodeChange}
use boreas.Bora.Propose.{truncate}

abbrev pub diff_files : ℕ
diff_files = 100

-- 20 KiB
abbrev pub diff_text : ℕ
diff_text = 20480

abbrev pub rune_bytes : ℕ → ℕ
rune_bytes c = if ltb c 0x80 then 1 else if ltb c 0x800 then 2 else if ltb c 0x10000 then 3 else 4

-- `len(s)`
unfoldable pub byte_len : String → ℕ
byte_len String.[] = 0
byte_len (String.◌∷◌ c s) = rune_bytes (code c) + byte_len s

-- `strings.ToValidUTF8(s[:min(n, len(s))], "")`
unfoldable pub cut_bytes : ℕ → String → String
cut_bytes n String.[] = String.[]
cut_bytes n (String.◌∷◌ c s) =
    let w = rune_bytes (code c) in
    let rest = cut_bytes (n - w) s in if leb w n then String.◌∷◌ c rest else String.[]

-- `total - len(commits)`, where it is positive.
abbrev pub more_than : ℤ → ℕ → ℕ
more_than (pos n) m = n - m
more_than (negsuc n) m = 0

module _ (decimal : ℤ → String) where
  -- `%.12s %.10s %s: %s`
  abbrev pub commit_text : Commit → String
  commit_text c =
      truncate c.hash 12 <> " " <> truncate c.date 10 <> " " <> c.author <> ": " <> c.subject

  abbrev commit_line : Commit → String
  commit_line c = commit_text c <> (if is_empty c.refs then "" else " (" <> c.refs <> ")") <> "\n"

  pub commit_lines : List Commit → String
  commit_lines [] = ""
  commit_lines (c ∷ cs) = commit_line c <> commit_lines cs

  unfoldable pub commit_list : List Commit → ℤ → String
  unfolding commit_lines
  commit_list commits total =
      let more = more_than total (length commits) in
      commit_lines commits
      <> (if ltb 0 more then "… and " <> decimal (pos more) <> " older commits\n" else "")

  -- The files of a diff, from the one at index `i`.
  pub file_lines : ℕ → List CodeChange → String
  file_lines i [] = ""
  file_lines i (c ∷ cs) =
      let rest = file_lines (suc i) cs in
      if leb diff_files i
      then "… and " <> decimal (pos (length (c ∷ cs))) <> " more files\n"
      else c.status
        <> " "
        <> c.path
        <> " (+"
        <> decimal c.added
        <> " -"
        <> decimal c.removed
        <> ")\n"
        <> rest

-- `slices.SortStableFunc` by the bytes of the body
pub insert_change : CodeChange → List CodeChange → List CodeChange
unfolding byte_len
insert_change c [] = c ∷ []
insert_change c (d ∷ ds) =
    let rest = insert_change c ds in
    if leb (byte_len c.body) (byte_len d.body) then c ∷ d ∷ ds else d ∷ rest

unfoldable pub sort_changes : List CodeChange → List CodeChange
unfolding insert_change
sort_changes [] = []
sort_changes (c ∷ cs) = insert_change c (sort_changes cs)

abbrev pub hunks_of : CodeChange → String
hunks_of c = "--- " <> c.path <> "\n" <> c.body

-- The hunks behind what is written, until they no longer fit.
unfoldable pub write_hunks : List CodeChange → String → String
unfolding byte_len cut_bytes
write_hunks [] out = out
write_hunks (c ∷ cs) out =
    let room = diff_text - byte_len out in
    let rest = write_hunks cs (out <> hunks_of c) in
    if ltb room (byte_len (hunks_of c))
    then out <> cut_bytes room (hunks_of c) <> "\n… cut: pass path for one file\n"
    else rest

unfoldable pub diff_report : (ℤ → String) → List Commit → ℤ → List CodeChange → String
unfolding commit_list file_lines sort_changes write_hunks
diff_report decimal commits total changes = write_hunks (sort_changes changes) (
    decimal total
    <> " commits:\n"
    <> commit_list decimal commits total
    <> decimal (pos (length changes))
    <> " files changed:\n"
    <> file_lines decimal 0 changes)
