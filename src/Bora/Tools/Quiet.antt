-- ===== src/Bora/Tools/Quiet.antt =====
-- The look-ups by name and the tools that read leave the buttons of an answer as they are.
use boreas.Prelude.{
  ℕ, Bool, true, false, if◌then◌else◌, ◌≡◌, refl, ◌||◌, arith, String, Option, none, some, find,
}
use boreas.Prelude.Text.{is_empty, is_blank}
use boreas.Prelude.Int.{ℤ}
use boreas.Core.Errors.{Err, Result}
use boreas.Core.Model.{Time, ProjectAccess}
use boreas.Core.Roles.{is_owner}
use boreas.App.{Env}
use boreas.Bora.Aid.{Aid, CodeIndex, CodeFile}
use boreas.Bora.State.{Bora, Tool, pure}
use boreas.Bora.Lookup
use boreas.Bora.Code
use boreas.Bora.Views
use boreas.Bora.Tools.{
  Use, use_tool, is_proposal, unknown_tool, wired, for_owners, owns_any, propose_action, set_title,
  search_code, ask_sourcebot, read_file, blame, code_history, code_diff, task_logs, members, grants,
  other,
}
use boreas.Bora.Tools.Laws.{
  IsFrame, IsQuiet, IsFrame-refl, read-IsFrame, IsQuiet-bind, IsQuiet-if, given-IsQuiet,
  pure-IsQuiet,
}

project-IsQuiet : (slug : String) → IsQuiet (Lookup.project slug)
unfolding Lookup.project
project-IsQuiet slug s =
    read-IsFrame (Lookup.seen_id (find (Lookup.has_slug slug) s.bora.members)) s.bora

member_project-IsQuiet : (slug : String) → IsQuiet (Lookup.member_project slug)
unfolding Lookup.member_project
member_project-IsQuiet slug =
    IsQuiet-bind (Lookup.project slug) (λ acc. Lookup.given acc (Lookup.not_member slug))
      (project-IsQuiet slug) λ acc. given-IsQuiet acc (Lookup.not_member slug)

pub owned-IsQuiet : (slug : String) → IsQuiet (Lookup.owned slug)
unfolding Lookup.owned
owned-IsQuiet slug =
    IsQuiet-bind (Lookup.member_project slug) _ (member_project-IsQuiet slug) λ acc.
      IsQuiet-if (is_owner acc.role) (pure acc) _ (pure-IsQuiet acc) (λ s. IsFrame-refl s.bora)

found-IsQuiet : (name : String) (acc : Option ProjectAccess) → IsQuiet (Lookup.find_in name acc)
found-IsQuiet name none s = IsFrame-refl s.bora
found-IsQuiet name (some acc) s = IsFrame-refl s.bora

pub find_task-IsQuiet : (slug name : String) → IsQuiet (Lookup.find_task slug name)
unfolding Lookup.find_task
find_task-IsQuiet slug name =
    IsQuiet-bind (Lookup.project slug) (Lookup.find_in name) (project-IsQuiet slug)
      (found-IsQuiet name)

pub code-IsQuiet : (slug : String) → IsQuiet (Lookup.code slug)
unfolding Lookup.code
code-IsQuiet named =
    IsQuiet-bind _ _ (λ s. IsFrame-refl s.bora)
      λ slug.
        IsQuiet-bind _ _
          (IsQuiet-if (is_empty slug) _ (pure slug) (λ s. IsFrame-refl s.bora) (pure-IsQuiet slug))
          λ _. IsQuiet-bind _ _ (member_project-IsQuiet slug) λ _. pure-IsQuiet slug

pub repo-IsQuiet : (repository slug : String) → IsQuiet (Lookup.repo repository slug)
unfolding Lookup.repo
repo-IsQuiet repository slug =
    IsQuiet-if (is_empty repository) _ (Lookup.code slug) (λ s. IsFrame-refl s.bora)
      (code-IsQuiet slug)

taint-IsFrame : (b : Bora) → IsFrame b (Code.taint b)
taint-IsFrame b = record {
  actor = refl;
  members = refl;
  tasks = refl;
  actions = refl;
  tainted = λ _. refl;
}

cite-IsFrame : (file : CodeFile) (b : Bora) → IsFrame b (Code.cite file b)
unfolding Code.cite
cite-IsFrame file b = record {
  actor = ground arith;
  members = ground arith;
  tasks = ground arith;
  actions = ground arith;
  tainted = λ e. ground arith;
}

titled-IsFrame : (title : String) (b : Bora) → IsFrame b (Code.titled title b)
titled-IsFrame title b = record {
  actor = ground arith;
  members = ground arith;
  tasks = ground arith;
  actions = ground arith;
  tainted = λ e. ground arith;
}

query-IsQuiet : (query : String) → IsQuiet (Code.require_query query)
query-IsQuiet query =
    IsQuiet-if (is_blank query) _ (pure tt) (λ s. IsFrame-refl s.bora) (pure-IsQuiet tt)

module _ (aid : Aid) (index : CodeIndex) where
  pub search_code-IsQuiet :
      (project query : String) → IsQuiet (Code.search_code aid index project query)
  unfolding Code.search_code
  search_code-IsQuiet project query =
      IsQuiet-bind _ _ (λ s. taint-IsFrame s.bora)
        λ _. IsQuiet-bind _ _ (code-IsQuiet project) λ slug.
          IsQuiet-bind _ _ (query-IsQuiet query)
            λ _. IsQuiet-bind _ _ (λ s. IsFrame-refl s.bora) λ ms s. IsFrame-refl s.bora

  pub ask_sourcebot-IsQuiet :
      (project query : String) → IsQuiet (Code.ask_sourcebot aid index project query)
  unfolding Code.ask_sourcebot
  ask_sourcebot-IsQuiet project query =
      IsQuiet-bind _ _ (λ s. taint-IsFrame s.bora)
        λ _. IsQuiet-bind _ _ (code-IsQuiet project) λ slug.
          IsQuiet-bind _ _ (query-IsQuiet query)
            λ _. IsQuiet-bind _ _ (λ s. IsFrame-refl s.bora) λ reply s. IsFrame-refl s.bora

  pub read_file-IsQuiet :
      (project repo path ref : String) → IsQuiet (Code.read_file aid index project repo path ref)
  unfolding Code.read_file
  read_file-IsQuiet project repo path ref =
      IsQuiet-bind _ _ (λ s. taint-IsFrame s.bora)
        λ _. IsQuiet-bind _ _ (repo-IsQuiet repo project) λ slug.
          IsQuiet-bind _ _ (λ s. IsFrame-refl s.bora)
            λ file. IsQuiet-bind _ _ (λ s. cite-IsFrame file s.bora) λ _ s. IsFrame-refl s.bora

  pub blame-IsQuiet :
      (project repo path ref : String) → IsQuiet (Code.blame aid index project repo path ref)
  unfolding Code.blame
  blame-IsQuiet project repo path ref =
      IsQuiet-bind _ _ (λ s. taint-IsFrame s.bora)
        λ _.
          IsQuiet-bind _ _ (repo-IsQuiet repo project)
            λ slug. IsQuiet-bind _ _ (λ s. IsFrame-refl s.bora) λ ranges s. IsFrame-refl s.bora

  pub code_history-IsQuiet :
      (project repo ref path query : String)
      → IsQuiet (Code.code_history aid index project repo ref path query)
  unfolding Code.code_history
  code_history-IsQuiet project repo ref path query =
      IsQuiet-bind _ _ (λ s. taint-IsFrame s.bora)
        λ _.
          IsQuiet-bind _ _ (repo-IsQuiet repo project)
            λ slug. IsQuiet-bind _ _ (λ s. IsFrame-refl s.bora) λ found s. IsFrame-refl s.bora

  pub code_diff-IsQuiet :
      (project repo base head path : String)
      → IsQuiet (Code.code_diff aid index project repo base head path)
  unfolding Code.code_diff
  code_diff-IsQuiet project repo base head path =
      IsQuiet-bind _ _ (λ s. taint-IsFrame s.bora)
        λ _. IsQuiet-bind _ _ (repo-IsQuiet repo project) λ slug.
          IsQuiet-bind _ _
            (IsQuiet-if (is_empty base || is_empty head) _ (pure tt) (λ s. IsFrame-refl s.bora)
              (pure-IsQuiet tt))
            λ _.
              IsQuiet-bind _ _ (λ s. IsFrame-refl s.bora)
                λ found.
                  IsQuiet-bind _ _ (λ s. IsFrame-refl s.bora) λ changes s. IsFrame-refl s.bora

pub set_title-IsQuiet : (aid : Aid) (title : String) → IsQuiet (Code.set_title aid title)
unfolding Code.set_title
set_title-IsQuiet aid title =
    IsQuiet-bind _ _ (λ s. titled-IsFrame _ s.bora) λ _ s. IsFrame-refl s.bora

module _ (env : Env) (aid : Aid) where
  pub task_logs-IsQuiet :
      (logs : ℕ → String → String → ℤ → Option Time → Result Err String) (project name : String)
      (tail : ℤ) (since : String)
      → IsQuiet (Views.task_logs env aid logs project name tail since)
  unfolding Views.task_logs
  task_logs-IsQuiet logs project name tail since =
      IsQuiet-bind _ _ (find_task-IsQuiet project name) λ t.
        IsQuiet-bind _ _ (given-IsQuiet t (Lookup.no_task project name)) λ _.
          IsQuiet-bind _ _ (λ s. IsFrame-refl s.bora)
            λ _. IsQuiet-bind _ _ (λ s. IsFrame-refl s.bora) λ from s. IsFrame-refl s.bora

  pub list_members-IsQuiet : (slug : String) → IsQuiet (Views.list_members env aid slug)
  unfolding Views.list_members
  list_members-IsQuiet slug = IsQuiet-bind _ _ (owned-IsQuiet slug) λ acc s. IsFrame-refl s.bora

  pub list_grants-IsQuiet : (slug name : String) → IsQuiet (Views.list_grants env aid slug name)
  unfolding Views.list_grants
  list_grants-IsQuiet slug name = IsQuiet-bind _ _ (owned-IsQuiet slug) λ acc.
      IsQuiet-bind _ _ (λ s. IsFrame-refl s.bora)
        λ found.
          IsQuiet-bind _ _ (given-IsQuiet found (Lookup.no_task slug name))
            λ t. IsQuiet-bind _ _ (λ s. IsFrame-refl s.bora) λ text s. IsFrame-refl s.bora

-- A tool that an answer may not have.
or_unknown-IsQuiet :
    {X : Type 0} (o : Option X) (name : String) (f : X → Tool String)
    → ((x : X) → IsQuiet (f x))
    → IsQuiet (wired o name f)
unfolding wired
or_unknown-IsQuiet none name f k = λ s. IsFrame-refl s.bora
or_unknown-IsQuiet (some x) name f k = k x

for_owners-IsQuiet : (name : String) (m : Tool String) → IsQuiet m → IsQuiet (for_owners name m)
for_owners-IsQuiet name m h s = go (owns_any s.bora)
  where
    go : (c : Bool) → IsFrame s.bora (if c then m s else unknown_tool name s).1.bora
    go true = h s
    go false = IsFrame-refl s.bora

-- The buttons stay, whatever tool but propose_action is called and whatever it replies.
pub use_tool-IsQuiet :
    (env : Env) (aid : Aid) (first : Bool) (u : Use)
    → is_proposal u ≡ false
    → IsQuiet (use_tool env aid first u)
unfolding use_tool
use_tool-IsQuiet env aid first (propose_action p) h = cc
use_tool-IsQuiet env aid first (other name) h = λ s. IsFrame-refl s.bora
use_tool-IsQuiet env aid first (set_title title) h =
    IsQuiet-if first _ (unknown_tool "set_title") (set_title-IsQuiet aid title)
      λ s. IsFrame-refl s.bora
use_tool-IsQuiet env aid first (search_code project query) h =
    or_unknown-IsQuiet aid.code _ _ λ index. search_code-IsQuiet aid index project query
use_tool-IsQuiet env aid first (ask_sourcebot project query) h =
    or_unknown-IsQuiet aid.code _ _ λ index. ask_sourcebot-IsQuiet aid index project query
use_tool-IsQuiet env aid first (read_file project repo path ref) h =
    or_unknown-IsQuiet aid.code _ _ λ index. read_file-IsQuiet aid index project repo path ref
use_tool-IsQuiet env aid first (blame project repo path ref) h =
    or_unknown-IsQuiet aid.code _ _ λ index. blame-IsQuiet aid index project repo path ref
use_tool-IsQuiet env aid first (code_history project repo ref path query) h =
    or_unknown-IsQuiet aid.code _ _
      λ index. code_history-IsQuiet aid index project repo ref path query
use_tool-IsQuiet env aid first (code_diff project repo base head path) h =
    or_unknown-IsQuiet aid.code _ _ λ index. code_diff-IsQuiet aid index project repo base head path
use_tool-IsQuiet env aid first (task_logs project task tail since) h =
    or_unknown-IsQuiet aid.logs _ _ λ logs. task_logs-IsQuiet env aid logs project task tail since
use_tool-IsQuiet env aid first (members project) h =
    for_owners-IsQuiet "members" (Views.list_members env aid project)
      (list_members-IsQuiet env aid project)
use_tool-IsQuiet env aid first (grants project task) h =
    for_owners-IsQuiet "grants" (Views.list_grants env aid project task)
      (list_grants-IsQuiet env aid project task)
