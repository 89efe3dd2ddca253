-- ===== src/Examples/Assistant.antt =====
-- The assistant at concrete inputs: Ana asks about her project, and Bo follows a turn.
use boreas.Prelude.{
  ℕ, ◌≤◌, ◌≡◌, ◌≢◌, refl, String, Bool, true, false, all, keep, not, none, some, List, [], ◌∷◌,
  ◌++◌, arith, length,
}
use boreas.Prelude.Text.{is_empty}
use boreas.Prelude.Int.{pos}
use boreas.Core.Enums.{DevStatus}
use boreas.Core.Errors.{Err, Result, ok}
use boreas.Core.Roles.{ProjectRole, owner, member, absent}
use boreas.Bora.Aid.{Aid, CodeIndex}
use boreas.Bora.State.{Bora, Session}
use boreas.Bora.Action.{Proposal, is_safe}
use boreas.Bora.Tools.{Use, propose_action, read_file}
use boreas.Bora.Tools.Buttons.{IsSound}
use boreas.Bora.Rounds.{Message, Ending, answers, Asked, max_choices, asked_back, answer}
use boreas.Bora.Rounds.Reads.{calls, answer_calls, IsGuarded}
use boreas.Bora.Rounds.Ends.{answer-IsSound, answer-AddsSafe, answer_ends}
use boreas.Bora.Rounds.Bounds.{AreShown, asked_back_bounds}
use boreas.Bora.Turns.{Turn, Move, asks, ends, stops, shuts_down, moves, is_of, stop, stop_deleted}
use boreas.Bora.Turns.Laws.{IsGated, moves-IsGated, stop-others}
use boreas.Bora.Follow.{BoraEvent, Log, Stream, Step, publishes, runs, happen, waiting}
use boreas.Bora.Follow.Replay.{IsReplay, Closes, follow_sound, follow-Closes}
use boreas.Examples.Data.{quiet, world, ana, shop, cart}

abbrev index : CodeIndex
index = record {
  has = λ _ _. [];
  search = λ _ _ _. ok [];
  read = λ _ _ repo ref path. ok (record { repo = repo; path = path; content = "x"; url = "" });
  commits = λ _ _ _ _ _ _. ok ([], pos 0);
  diff = λ _ _ _ _ _ _. ok [];
  blame = λ _ _ _ _ _. ok [];
  ask = λ _ _ _. ok "";
}

abbrev pub aid : Aid
aid = record {
  replace_all = λ _ _ text. text;
  equal_fold = λ _ _. false;
  logs = none;
  parse_time = λ _. none;
  rfc3339 = λ _. "2026-10-18T09:00:00Z";
  quote = λ s. s;
  decimal = λ _. "0";
  has_users = true;
  code = some index;
}

abbrev pub empty_answer : Bora
empty_answer = record {
  actor = ana;
  members = record { project = shop; user_id = 1; role = owner; all_tasks = true } ∷ [];
  unserved = [];
  tasks = record { task = cart; role = owner } ∷ [];
  read = [];
  label = "project shop";
  subject = "";
  actions = [];
  sources = [];
  title = "";
  tainted = false;
}

abbrev asked : Session
asked = record { bora = empty_answer; world = world }

abbrev on_cart : String → Proposal
on_cart op = record {
  op = op;
  project = "shop";
  task = "cart";
  reason = "it helps";
  username = "bo";
  name = "";
  description = "";
  note = "";
  image = "";
  role = member;
  dev_status = DevStatus.unnamed "";
  port = pos 0;
  auto_restart = none;
  volumes = [];
  set = [];
  unset = [];
  registry_credential = "";
}

abbrev says : String → List Use → Message
says content calls = record { content = content; calls = calls; asked = none }

-- A stop, the same again, a grant and a file, then a deletion that comes too late, then the answer.
abbrev model : List (List String) → Result Err Message
model [] = ok (
    says "" (
      propose_action (on_cart "task.stop")
      ∷ propose_action (on_cart "TASK.STOP")
      ∷ propose_action (on_cart "grant.add")
      ∷ read_file "" "github.com/shop/cart" "main.go" ""
      ∷ []))
model (_ ∷ []) = ok (says "" (propose_action (on_cart "task.delete") ∷ []))
model _ = ok (says "It is stopped." [])

abbrev budget : ℕ
budget = 49152

two_buttons : length (answer quiet aid true true budget model asked).1.bora.actions ≡ 2
unfolding answer boreas.Bora.Redact.redact boreas.Bora.State.◌>>=◌
    boreas.Core.Names.validate_task_name boreas.Bora.Checks.task_role boreas.Core.Roles.rank
    boreas.Bora.Action.need boreas.Bora.Checks.in_range boreas.Bora.Person.person
    boreas.Store.Users.get_by_username boreas.Store.Members.list_members
    boreas.Store.Grants.any_in_project boreas.Bora.Checks.set_role
two_buttons = refl

it_answers : (answer quiet aid true true budget model asked).0 ≡ some (answers "It is stopped.")
unfolding answer boreas.Bora.Redact.redact boreas.Bora.State.◌>>=◌
    boreas.Core.Names.validate_task_name boreas.Bora.Checks.task_role boreas.Core.Roles.rank
    boreas.Bora.Action.need boreas.Bora.Checks.in_range boreas.Bora.Person.person
    boreas.Store.Users.get_by_username boreas.Store.Members.list_members
    boreas.Store.Grants.any_in_project boreas.Bora.Checks.set_role boreas.Prelude.Text.trim_space
it_answers = refl

empty-IsSound : IsSound empty_answer
empty-IsSound = record { offered = tt; few = omega arith; distinct = tt }

answer-IsSound_example : IsSound (answer quiet aid true true budget model asked).1.bora
answer-IsSound_example = answer-IsSound quiet aid true true budget model asked empty-IsSound

five_calls : length (answer_calls quiet aid true true budget model asked) ≡ 5
unfolding answer boreas.Bora.Rounds.judge boreas.Bora.Rounds.replies boreas.Bora.Rounds.reply
    boreas.Bora.Tools.use_tool boreas.Bora.Redact.redact boreas.Bora.State.◌>>=◌
    boreas.Core.Names.validate_task_name boreas.Bora.Checks.task_role boreas.Core.Roles.rank
    boreas.Bora.Action.need boreas.Bora.Checks.in_range boreas.Bora.Person.person
    boreas.Store.Users.get_by_username boreas.Store.Members.list_members
    boreas.Store.Grants.any_in_project boreas.Bora.Checks.set_role
five_calls = refl

answer-AddsSafe_example :
    ((answer quiet aid true true budget model asked).1
      ≡ calls quiet aid true (answer_calls quiet aid true true budget model asked) asked)
    × IsGuarded quiet aid true asked (answer_calls quiet aid true true budget model asked)
answer-AddsSafe_example = answer-AddsSafe quiet aid true true budget model asked

answer_ends_example : (e : Ending) × ((answer quiet aid true true budget model asked).0 ≡ some e)
answer_ends_example = answer_ends quiet aid true true budget model asked

abbrev question : Asked
question = record { question = " Which? "; choices = "a" ∷ "" ∷ " a" ∷ "b" ∷ [] }

asked_back_bounds_example :
    (2 ≤ 2) × (2 ≤ max_choices) × AreShown ("a" ∷ "b" ∷ []) × (is_empty "Which?" ≡ false)
unfolding asked_back boreas.Prelude.Text.trim_space boreas.Bora.Redact.redact
asked_back_bounds_example =
    asked_back_bounds aid (some question) (record { question = "Which?"; choices = "a" ∷ "b" ∷ [] })
      refl

abbrev turn_of : ℕ → ℕ → Turn
turn_of conv user = record { conv = conv; user = user; first = true; cancelled = false }

-- The fourth question of one user is refused while three run.
abbrev asking : List Move
asking =
    asks (turn_of 1 7)
    ∷ asks (turn_of 2 7)
    ∷ asks (turn_of 3 7)
    ∷ asks (turn_of 4 7)
    ∷ asks (turn_of 5 8)
    ∷ ends 2
    ∷ stops 8 1
    ∷ asks (turn_of 4 7)
    ∷ []

four_run : length (moves asking []) ≡ 4
unfolding moves boreas.Bora.Turns.enter stop boreas.Bora.Turns.leave
four_run = refl

none-IsGated : IsGated []
none-IsGated = record {
  total = omega arith;
  per_user = λ _. omega arith;
  per_conv = λ _. omega arith;
}

moves-IsGated_example : IsGated (moves asking [])
moves-IsGated_example = moves-IsGated asking [] none-IsGated

stop-others_example :
    (keep (λ t. not (is_of 7 t)) (stop 7 1 (turn_of 1 7 ∷ turn_of 2 8 ∷ [])) ≡ turn_of 2 8 ∷ [])
    × (keep (λ t. not (is_of 7 t)) (stop_deleted 7 none (turn_of 1 7 ∷ turn_of 2 8 ∷ []))
        ≡ turn_of 2 8 ∷ [])
stop-others_example = stop-others 7 1 none (turn_of 1 7 ∷ turn_of 2 8 ∷ [])

-- A turn that has shown a step, and the stream of a reader who comes late.
abbrev begun : Log
begun = record { events = BoraEvent.step "Looking…" ∷ []; wake = 1; over = false }

abbrev steps : List Step
steps =
    runs
    ∷ publishes (BoraEvent.delta "Yes")
    ∷ runs
    ∷ runs
    ∷ publishes (BoraEvent.done "" 1)
    ∷ Step.ends
    ∷ []

abbrev followed : Stream
followed = record {
  log = record {
    events = BoraEvent.step "Looking…" ∷ BoraEvent.delta "Yes" ∷ BoraEvent.done "" 1 ∷ [];
    wake = 4;
    over = true;
  };
  follower = record {
    phase = waiting;
    sent = 1;
    batch = [];
    size = 1;
    wake = 1;
    over = false;
    out = BoraEvent.step "Looking…" ∷ [];
  };
}

follow_sound_example : IsReplay followed
unfolding happen
follow_sound_example = follow_sound begun steps followed refl

follow-Closes_example : Closes followed.log followed.follower
unfolding happen
follow-Closes_example = follow-Closes begun steps followed refl refl (λ e. cc e)
