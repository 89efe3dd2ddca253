-- ===== src/Bora/Views.antt =====
-- `taskLogs`, `cut`, `listMembers`, `listGrants` and `projectSettings` of
-- internal/service/bora_tools.go: what the tools read of a task, of who has access and of a project.
use Prim.Native.Char.{code}
use boreas.Prelude.{
  ℕ, ◌-◌, String, Bool, true, false, Option, none, some, List, [], ◌∷◌, find, map, leb, ◌==◌,
  if◌then◌else◌,
}
use boreas.Prelude.Text.{is_empty, or_text, ◌<>◌}
use boreas.Prelude.Int.{ℤ, pos, between, or_int}
use boreas.Core.Errors.{Err, Result, ok, err, ErrKind, conflict}
use boreas.Core.Roles.{ProjectRole, role_text}
use boreas.Core.Model.{Uuid, Time}
use boreas.Store
use boreas.Store.Db.{Db}
use boreas.App.{Env, query, tick_of}
use boreas.Bora.Aid.{Aid}
use boreas.Bora.State.{Tool, said, pure, look, lift, run, or_say, ◌>>=◌, ◌>>◌}
use boreas.Bora.Lookup.{owned, find_task, task, no_task, given}
use boreas.Bora.Diff.{byte_len, rune_bytes}

-- 16 KiB
abbrev pub log_tail : ℕ
log_tail = 16384

-- The runes left when `n` bytes are dropped; a rune that the cut splits is dropped.
pub drop_bytes : ℕ → String → String
drop_bytes n String.[] = String.[]
drop_bytes n (String.◌∷◌ c s) =
    let rest = drop_bytes (n - rune_bytes (code c)) s in if n == 0 then String.◌∷◌ c s else rest

-- `_, newest, _ := strings.Cut(s, "\n")`
pub after_line : String → String
after_line String.[] = String.[]
after_line (String.◌∷◌ c s) = let rest = after_line s in if code c == 10 then s else rest

-- The newest 16 KiB of whole lines, so that redaction still sees the key of every secret.
unfoldable pub cut : String → String
unfolding byte_len drop_bytes after_line
cut logs =
    if leb (byte_len logs) log_tail
    then logs
    else after_line (drop_bytes (byte_len logs - log_tail) logs)

abbrev pub since_of : (String → Option Time) → String → Result Err (Option Time)
since_of parse text = if is_empty text then ok none else elim (parse text) [
  | none ↦ err (said "error: since must be an RFC 3339 time")
  | some t ↦ ok (some t)
]

abbrev pub is_conflict : ErrKind → Bool
is_conflict conflict = true
is_conflict _ = false

-- What the model is told of the logs.
abbrev pub log_reply : Result Err String → Result Err String
log_reply (err e) =
    if is_conflict e.kind
    then ok "no logs: the task has no container yet"
    else err (said "error: could not read the logs")
log_reply (ok logs) =
    if is_empty logs
    then ok "no log lines"
    else ok (or_text (cut logs) "error: the lines are too long to read")

abbrev pub tail_check : ℤ → Result Err (Unit {0})
tail_check tail = if between 1 200 tail then ok tt else err (said "error: tail must be 1 to 200")

-- A member or a grantee by name, as the query joins it.
abbrev pub username_of : Db → Uuid → String
username_of db user_id = elim (find (λ u. u.id == user_id) db.users) [
  | none ↦ ""
  | some u ↦ u.username
]

abbrev pub named_roles : Db → List (Uuid × ProjectRole) → String
named_roles db [] = ""
named_roles db ((user_id, role) ∷ rest) =
    username_of db user_id <> ": " <> role_text role <> "\n" <> named_roles db rest

abbrev pub members_text : Uuid → Db → Result Err String
members_text project_id db = elim (Store.Members.list_members project_id db) [
  | ok ms ↦ ok (named_roles db (map (λ m. (m.user_id, m.role)) ms))
  | err e ↦ err e
]

abbrev pub grants_text : Uuid → Db → Result Err String
grants_text task_id db = elim (Store.Grants.list_for_task task_id db) [
  | ok gs ↦ ok (named_roles db (map (λ g. (g.user_id, g.role)) gs))
  | err e ↦ err e
]

module _ (env : Env) (aid : Aid) where
  -- A service's answer at this call.
  abbrev consult_logs : (ℕ → Result Err String) → Tool String
  consult_logs f s = (log_reply (f s.world.tick), record s { world = tick_of s.world })

  unfoldable pub task_logs :
      (ℕ → String → String → ℤ → Option Time → Result Err String)
      → String
      → String
      → ℤ
      → String
      → Tool String
  unfolding find_task no_task cut
  task_logs logs project name tail since = do
    t ← find_task project name
    given t (no_task project name)
    lift (tail_check (or_int tail (pos 200)))
    from ← lift (since_of aid.parse_time since)
    consult_logs λ n. logs n project name (or_int tail (pos 200)) from

  unfoldable pub list_members : String → Tool String
  unfolding owned query
  list_members slug = do
    acc ← owned slug
    run λ _. or_say "error: could not read the members" (query env (members_text acc.project.id))

  unfoldable pub list_grants : String → String → Tool String
  unfolding owned task query
  list_grants slug name = do
    acc ← owned slug
    found ← look (task acc name)
    t ← given found (no_task slug name)
    text ← run λ _. or_say "error: could not read the grants" (query env (grants_text t.task.id))
    pure (or_text text ("no one holds a grant on " <> name))
