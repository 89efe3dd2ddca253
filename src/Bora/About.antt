-- ===== src/Bora/About.antt =====
-- `validAbout`, `BoraServes` and the texts of `alert` and `taskSubject` of internal/service/bora.go, and `taskLine` of internal/service/bora_tools.go: what a question is about, and the projects that its
-- answer covers. A task's last deploy is left out of its line, as it is of the fleet.
pub mod Open
pub mod Laws
pub mod Narrow
use text.Mathlib.Text.{◌==◌ as text_eq}
use boreas.Prelude.{
  ℕ, String, Bool, true, false, not, ◌&&◌, Option, none, some, List, [], ◌∷◌, ◌++◌, any, find,
  length, map, leb, ltb, ◌==◌, if◌then◌else◌,
}
use boreas.Prelude.Text.{codes, is_empty, trim_space, ◌<>◌}
use boreas.Core.Enums.{
  NotificationType, NotificationStatus, deployed, deploy_failed, status_changed, task_created,
  task_assigned, build_failed, success, failure, info, BuildState, dev_text, status,
}
use boreas.Core.Errors.{Err, Result, ok, err, err_not_found, err_forbidden}
use boreas.Core.Model.{Uuid, Time, User, Task, ProjectAccess, is_admin}
use boreas.Store.Inbox.{Note}
use boreas.Project.Fleet.{FleetTask}
use boreas.Task.Reply.{status_text}
use boreas.Bora.Aid.{Aid, CodeIndex}
use boreas.Bora.State.{Bora}
use boreas.Bora.Lookup.{has_slug, mark_read}
use boreas.Bora.Propose.{truncate}
use boreas.Bora.Diff.{byte_len}
use boreas.Bora.Code.{one_line}

pub data AboutKind : Type 0 where
  fleet project task alert build log : AboutKind
  unnamed : String → AboutKind

abbrev pub is_fleet : AboutKind → Bool
is_fleet AboutKind.fleet = true
is_fleet _ = false

pub record BoraAbout : Type 0 where
  pub kind : AboutKind
  pub project : String
  pub task : String
  pub id : Uuid
  pub at : String
  pub line : String

-- `aboutField`
pub record AboutField : Type 0 where
  pub project : Bool
  pub task : Bool
  pub id : Bool
  pub at : Bool
  pub line : Bool

abbrev field : Bool → Bool → Bool → Bool → Bool → Option AboutField
field p t i a l = some (record { project = p; task = t; id = i; at = a; line = l })

-- `aboutFields`: what each kind of subject carries, and it carries nothing else.
abbrev pub about_fields : AboutKind → Option AboutField
about_fields AboutKind.fleet = field false false false false false
about_fields AboutKind.project = field true false false false false
about_fields AboutKind.task = field true true false false false
about_fields AboutKind.build = field true true false false false
about_fields AboutKind.alert = field true false true false false
about_fields AboutKind.log = field true true false true true
about_fields (AboutKind.unnamed s) = none

abbrev same : Bool → Bool → Bool
same true b = b
same false b = not b

abbrev pub carries : BoraAbout → AboutField → Bool
carries a want =
    same want.project (not (is_empty a.project))
    && same want.task (not (is_empty a.task))
    && same want.id (not (a.id == 0))
    && same want.at (not (is_empty a.at))
    && same want.line (not (is_empty a.line))

unfoldable pub valid_about : BoraAbout → Bool
unfolding byte_len
valid_about a = elim (about_fields a.kind) [
  | none ↦ false
  | some want ↦ carries a want && leb (byte_len a.at) 64 && leb (length (codes a.line)) 1000
]

-- `served[i] = served[i] && has`, for each answer of the code search.
abbrev pub and_has : List Bool → List Bool → List Bool
and_has [] hs = []
and_has (s ∷ ss) [] = s ∷ ss
and_has (s ∷ ss) (h ∷ hs) = (s && h) ∷ and_has ss hs

-- Bora answers about the projects of members; with code search, those with a search context.
unfoldable pub bora_serves : Option CodeIndex → ℕ → List ProjectAccess → List Bool
bora_serves none n accesses = map (λ acc. acc.all_tasks) accesses
bora_serves (some index) n accesses =
    and_has (map (λ acc. acc.all_tasks) accesses)
      (index.has n (map (λ acc. acc.project.slug) accesses))

-- The projects that are served, and the slugs of the members' that are not.
abbrev pub served_of : List Bool → List ProjectAccess → List ProjectAccess
served_of (true ∷ ss) (acc ∷ accs) = acc ∷ served_of ss accs
served_of (false ∷ ss) (acc ∷ accs) = served_of ss accs
served_of _ _ = []

abbrev pub unserved_of : List Bool → List ProjectAccess → List String
unserved_of (true ∷ ss) (acc ∷ accs) = unserved_of ss accs
unserved_of (false ∷ ss) (acc ∷ accs) =
    let rest = unserved_of ss accs in if acc.all_tasks then acc.project.slug ∷ rest else rest
unserved_of _ _ = []

abbrev optional : String → String → String
optional label s = if is_empty s then "" else label <> s

abbrev build_text : BuildState → String
build_text BuildState.none = ""
build_text BuildState.running = "running"
build_text BuildState.success = "success"
build_text BuildState.failure = "failure"
build_text BuildState.canceled = "canceled"
build_text (BuildState.unnamed s) = s

unfoldable pub task_line : Aid → Task → String
unfolding one_line
task_line aid t =
    t.name
    <> ": "
    <> status_text t.status
    <> optional ", dev " (dev_text t.dev_status)
    <> ", image "
    <> t.image
    <> ", port "
    <> aid.decimal t.port
    <> (if is_empty t.description then "" else ", about: " <> truncate (one_line t.description) 200)
    <> (if is_empty t.error then "" else ", error: " <> one_line t.error)
    <> (if is_empty (build_text t.build.state)
        then ""
        else ", build " <> trim_space (build_text t.build.state <> " " <> t.build.stage))

abbrev type_text : NotificationType → String
type_text deployed = "deployed"
type_text deploy_failed = "deploy_failed"
type_text status_changed = "status_changed"
type_text task_created = "task_created"
type_text task_assigned = "task_assigned"
type_text build_failed = "build_failed"

abbrev outcome_text : NotificationStatus → String
outcome_text success = "success"
outcome_text failure = "failure"
outcome_text info = "info"

abbrev labelled : String → String → Bora → Bora
labelled label subject b = record b { label = label; subject = subject }

-- An Activity event of the project, whose slug is the one of the project that was read.
abbrev about_note : Aid → BoraAbout → ProjectAccess → Note → Bora → Result Err Bora
about_note aid a acc n b =
    if n.note.project_id == acc.project.id
    then ok (
        labelled ("an Activity event of " <> a.project)
          ("The Activity event: "
            <> type_text n.note.type
            <> " at "
            <> aid.rfc3339 n.created_at
            <> " about "
            <> acc.project.slug
            <> "/"
            <> n.note.task_name
            <> ", "
            <> outcome_text n.note.status
            <> ": "
            <> n.note.title
            <> ": "
            <> one_line n.note.body)
          b)
    else err err_not_found

-- The label and the text of a task that was found, its latest build or one of its log lines.
abbrev task_said : Aid → BoraAbout → Task → String × String
task_said aid a t =
    let name = a.project <> "/" <> a.task in
    let subject = "The task: " <> a.project <> "/" <> task_line aid t in
    elim a.kind [
      | AboutKind.log ↦
          ("a log line of " <> name, subject <> "\nThe log line, at " <> a.at <> ": " <> a.line)
      | AboutKind.build ↦
          if is_empty (build_text t.build.state)
          then ("the latest build of " <> name <> ", which has not reported one yet", subject)
          else (
            "the latest build of " <> name,
            subject
                <> "\nIts latest build: "
                <> build_text t.build.state
                <> ", stage "
                <> aid.quote t.build.stage
                <> ", at "
                <> aid.rfc3339 t.build.at,
          )
      | _ ↦ ("task " <> name, subject)
    ]

abbrev about_task : Aid → BoraAbout → Task → Bora → Bora
about_task aid a t b = let (label, subject) = task_said aid a t in labelled label subject b

-- A follow-up goes on after the task is gone.
abbrev pub task_subject : Aid → BoraAbout → Bool → Option FleetTask → Bora → Result Err Bora
task_subject aid a follow_up none b =
    if follow_up
    then ok
        (labelled ("task " <> a.project <> "/" <> a.task <> ", which no longer exists") b.subject b)
    else err err_not_found
task_subject aid a follow_up (some row) b = ok (about_task aid a row.task b)

abbrev pub narrowed : ProjectAccess → Bora → Bora
narrowed acc b = record (mark_read (acc.project.id ∷ []) b) { members = acc ∷ [] }
