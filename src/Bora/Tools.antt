-- ===== src/Bora/Tools.antt =====
-- `tools` of internal/service/bora_tools.go and `run` of internal/infra/llm/assistant.go: the tools that
-- an answer has, and a call of one by the model. `list_projects`, `list_tasks`, `task_details`,
-- `activity`, `metrics` and `project_settings` are left out: of the answer's state they change only
-- which projects it has read.
pub mod Laws
pub mod Quiet
pub mod Buttons
use boreas.Prelude.{
  ℕ, String, Bool, true, false, Option, none, some, List, [], ◌∷◌, any, if◌then◌else◌,
}
use boreas.Prelude.Text.{◌<>◌}
use boreas.Prelude.Int.{ℤ}
use boreas.Core.Errors.{Err, Result, ok, err}
use boreas.Core.Roles.{is_owner}
use boreas.App.{Env}
use boreas.Bora.Aid.{Aid, CodeIndex}
use boreas.Bora.State.{Bora, Session, Tool, look, refuse, ◌>>=◌}
use boreas.Bora.Action.{Proposal}
use boreas.Bora.Propose.{propose}
use boreas.Bora.Code
use boreas.Bora.Views

-- A call of a tool, with its arguments.
pub data Use : Type 0 where
  propose_action : Proposal → Use
  set_title : (title : String) → Use
  search_code ask_sourcebot : (project query : String) → Use
  read_file blame : (project repo path ref : String) → Use
  code_history : (project repo ref path query : String) → Use
  code_diff : (project repo base head path : String) → Use
  task_logs : (project task : String) → ℤ → (since : String) → Use
  members : (project : String) → Use
  grants : (project task : String) → Use
  -- A name that no tool has.
  other : (name : String) → Use

abbrev pub is_proposal : Use → Bool
is_proposal (propose_action p) = true
is_proposal _ = false

abbrev pub unknown_tool : String → Tool String
unknown_tool name = refuse ("error: unknown tool " <> name)

-- A tool that is there only where what it needs is wired.
unfoldable pub wired : {X : Type 0} → Option X → String → (X → Tool String) → Tool String
wired none name f = unknown_tool name
wired (some x) name f = f x

abbrev pub owns_any : Bora → Bool
owns_any b = any (λ acc. is_owner acc.role) b.members

abbrev pub for_owners : String → Tool String → Tool String
for_owners name tool s = if owns_any s.bora then tool s else unknown_tool name s

-- Only a first answer may name its conversation.
unfoldable pub use_tool : Env → Aid → Bool → Use → Tool String
unfolding wired propose Code.set_title Code.search_code Code.ask_sourcebot Code.read_file Code.blame
    Code.code_history Code.code_diff Views.task_logs Views.list_members Views.list_grants
use_tool env aid first (propose_action p) = propose env aid p
use_tool env aid first (other name) = unknown_tool name
use_tool env aid first (set_title title) =
    if first then Code.set_title aid title else unknown_tool "set_title"
use_tool env aid first (search_code project query) =
    wired aid.code "search_code" λ index. Code.search_code aid index project query
use_tool env aid first (ask_sourcebot project query) =
    wired aid.code "ask_sourcebot" λ index. Code.ask_sourcebot aid index project query
use_tool env aid first (read_file project repo path ref) =
    wired aid.code "read_file" λ index. Code.read_file aid index project repo path ref
use_tool env aid first (blame project repo path ref) =
    wired aid.code "blame" λ index. Code.blame aid index project repo path ref
use_tool env aid first (code_history project repo ref path query) =
    wired aid.code "code_history" λ index. Code.code_history aid index project repo ref path query
use_tool env aid first (code_diff project repo base head path) =
    wired aid.code "code_diff" λ index. Code.code_diff aid index project repo base head path
use_tool env aid first (task_logs project task tail since) =
    wired aid.logs "task_logs" λ logs. Views.task_logs env aid logs project task tail since
use_tool env aid first (members project) = for_owners "members" (Views.list_members env aid project)
use_tool env aid first (grants project task) =
    for_owners "grants" (Views.list_grants env aid project task)

-- What a tool tells the model, its error as text.
abbrev pub told : Result Err String → String
told (ok text) = text
told (err e) = e.text
