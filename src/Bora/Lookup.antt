-- ===== src/Bora/Lookup.antt =====
-- `project`, `task`, `find`, `scope`, `notMember`, `noTask`, `owned`, `repo` and `code` of
-- internal/service/bora.go and bora_tools.go: what a tool may reach, by name.
use text.Mathlib.Text.{◌==◌ as text_eq}
use boreas.Prelude.{
  String, Bool, Option, none, some, List, [], ◌∷◌, ◌++◌, find, any, map, if◌then◌else◌,
}
use boreas.Prelude.Text.{is_empty, ◌<>◌}
use boreas.Core.Errors.{ok}
use boreas.Core.Roles.{is_owner}
use boreas.Core.Model.{Uuid, ProjectAccess}
use boreas.Project.Fleet.{FleetTask, tasks_in}
use boreas.Bora.State.{Bora, Tool, pure, refuse, look, update, ◌>>=◌, ◌>>◌}

abbrev pub has_slug : String → ProjectAccess → Bool
has_slug slug acc = text_eq acc.project.slug slug

abbrev pub mark_read : List Uuid → Bora → Bora
mark_read ids b = record b { read = b.read ++ ids }

abbrev pub seen_id : Option ProjectAccess → List Uuid
seen_id none = []
seen_id (some acc) = acc.project.id ∷ []

-- A project that the tools may read counts as read once it is found.
unfoldable pub project : String → Tool (Option ProjectAccess)
project slug s =
    let acc = find (has_slug slug) s.bora.members in
    (ok acc, record s { bora = mark_read (seen_id acc) s.bora })

abbrev pub task_among : List FleetTask → ProjectAccess → String → Option FleetTask
task_among tasks acc name = find (λ t. text_eq t.task.name name) (tasks_in acc.project.id tasks)

unfoldable pub task : ProjectAccess → String → Bora → Option FleetTask
task acc name b = task_among b.tasks acc name

abbrev pub find_in : String → Option ProjectAccess → Tool (Option FleetTask)
find_in name none = pure none
find_in name (some acc) = look (task acc name)

unfoldable pub find_task : String → String → Tool (Option FleetTask)
unfolding project task
find_task slug name = do acc ← project slug; find_in name acc

unfoldable pub not_member : String → Bora → String
not_member slug b =
    if any (text_eq slug) b.unserved
    then "error: Bora does not answer about " <> slug <> ": Sourcebot has no search context named "
      <> slug
    else "error: you are not a member of a project named " <> slug

unfoldable pub no_task : String → String → Bora → String
unfolding not_member
no_task slug name b =
    if any (text_eq slug) b.unserved
    then not_member slug b
    else "error: there is no task " <> slug <> "/" <> name <> " in your projects"

module _ {A : Type 0} where
  -- Refuse with a text that depends on the answer's state.
  abbrev pub refuse_with : (Bora → String) → Tool A
  refuse_with f = look f >>= refuse

  abbrev pub given : Option A → (Bora → String) → Tool A
  given none f = refuse_with f
  given (some a) f = pure a

unfoldable pub member_project : String → Tool ProjectAccess
unfolding project not_member
member_project slug = do acc ← project slug; given acc (not_member slug)

abbrev mark_all : Bora → Bora
mark_all b = mark_read (map (λ acc. acc.project.id) b.members) b

-- The named project, or every one for an empty slug; either counts as read.
unfoldable pub scope : String → Tool (List ProjectAccess)
unfolding member_project
scope slug =
    if is_empty slug
    then (do update mark_all; look λ b. b.members)
    else (do acc ← member_project slug; pure (acc ∷ []))

unfoldable pub owned : String → Tool ProjectAccess
unfolding member_project
owned slug = do
  acc ← member_project slug
  if is_owner acc.role
      then pure acc
      else refuse ("refused: only owners see who has access to " <> slug)

-- The only project that Bora sees stands for an empty slug.
abbrev only_slug : List ProjectAccess → String
only_slug (acc ∷ []) = acc.project.slug
only_slug _ = ""

abbrev pub or_only : String → List ProjectAccess → String
or_only slug members = if is_empty slug then only_slug members else slug

-- The project whose code a tool reads.
unfoldable pub code : String → Tool String
unfolding member_project
code named = do
  slug ← look λ b. or_only named b.members
  if is_empty slug then refuse "error: name the project whose code to read" else pure slug
  member_project slug
  pure slug

unfoldable pub repo : String → String → Tool String
unfolding code
repo repository slug =
    if is_empty repository
    then refuse "error: name the repository, as search_code or task_details names it"
    else code slug
