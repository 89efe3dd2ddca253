-- ===== src/Bora/Rounds.antt =====
-- `rounds`, `replies`, `clip` and `askedBack` of internal/infra/llm/assistant.go: the loop of one answer,
-- in which the model calls tools until it answers or asks back. What the model says to the replies so
-- far is a parameter; the text streamed on the way and the count of tokens are left out.
pub mod Runs
pub mod Reads
pub mod Ends
pub mod Bounds
use text.Mathlib.Text.{◌==◌ as text_eq}
use boreas.Prelude.{
  ℕ, zero, suc, ◌+◌, ◌-◌, String, Bool, true, false, not, ◌&&◌, ◌||◌, Option, none, some, List, [],
  ◌∷◌, ◌++◌, any, length, ltb, leb, if◌then◌else◌,
}
use boreas.Prelude.Text.{codes, is_empty, or_text, trim_space, ◌<>◌}
use boreas.Core.Errors.{Err, Result, ok, err}
use boreas.App.{Env}
use boreas.Bora.Aid.{Aid}
use boreas.Bora.State.{Session}
use boreas.Bora.Redact.{redact}
use boreas.Bora.Diff.{byte_len, cut_bytes}
use boreas.Bora.Tools.{Use, use_tool, told}

abbrev pub max_rounds : ℕ
max_rounds = 6

-- 24 KiB
abbrev pub result_limit : ℕ
result_limit = 24576

abbrev pub choice_runes : ℕ
choice_runes = 200

abbrev pub max_choices : ℕ
max_choices = 4

abbrev pub truncated : String
truncated = "\n… (truncated)"

-- What the model reads is redacted, and capped.
unfoldable pub clip : Aid → String → String
unfolding byte_len cut_bytes
clip aid text =
    let clean = redact aid.replace_all text in
    if ltb result_limit (byte_len clean) then cut_bytes result_limit clean <> truncated else clean

-- A call of ask_user, its arguments decoded.
pub record Asked : Type 0 where
  pub question : String
  pub choices : List String

abbrev pub choice_of : Aid → String → String
choice_of aid s = trim_space (redact aid.replace_all s)

-- The loop over the choices: those that are not empty, not too long and not there yet.
unfoldable pub add_choices : Aid → List String → List String → List String
add_choices aid found [] = found
add_choices aid found (c ∷ cs) =
    let choice = choice_of aid c in
    let kept = add_choices aid (found ++ choice ∷ []) cs in
    let passed = add_choices aid found cs in
    if not (is_empty choice)
      && leb (length (codes choice)) choice_runes
      && not (any (text_eq choice) found)
    then kept
    else passed

abbrev pub first_of : ℕ → List String → List String
first_of zero cs = []
first_of (suc n) [] = []
first_of (suc n) (c ∷ cs) = c ∷ first_of n cs

-- A question with 2 to 4 choices, or nothing.
unfoldable pub asked_back : Aid → Option Asked → Option Asked
unfolding add_choices
asked_back aid none = none
asked_back aid (some a) =
    let question = trim_space a.question in
    let choices = add_choices aid [] a.choices in
    if is_empty question || ltb (length choices) 2
    then none
    else some (record { question = question; choices = first_of max_choices choices })

-- What the model says: its text, the tools that it calls, and the ask_user call among them.
pub record Message : Type 0 where
  pub content : String
  pub calls : List Use
  pub asked : Option Asked

abbrev pub budget_spent : String
budget_spent = "error: tool budget spent; answer with what you found"

abbrev pub out_of_steps : String
out_of_steps = "I ran out of steps before finding the answer. Try a narrower question."

-- The replies of one round, the bytes they take and the session after it.
pub record Round : Type 0 where
  pub replies : List String
  pub used : ℕ
  pub session : Session

module _ (env : Env) (aid : Aid) (first : Bool) where
  -- One call: a tool, or nothing once the budget is spent.
  unfoldable pub reply : ℕ → ℕ → Use → Session → String × Session
  unfolding use_tool clip
  reply budget used u s =
      if ltb used budget
      then (let (r, s') = use_tool env aid first u s in (clip aid (told r), s'))
      else (clip aid budget_spent, s)

  -- Every call is answered, past the budget too.
  unfoldable pub replies : ℕ → ℕ → List Use → Session → Round
  unfolding reply
  replies budget used [] s = record { replies = []; used = used; session = s }
  replies budget used (u ∷ us) s =
      let (text, s') = reply budget used u s in
      let rest = replies budget (used + byte_len text) us s' in
      record rest { replies = text ∷ rest.replies }

-- How an answer ends.
pub data Ending : Type 0 where
  answers : String → Ending
  asks_back : Asked → Ending
  fails : Err → Ending

abbrev pub no_calls : List Use → Bool
no_calls [] = true
no_calls (u ∷ us) = false

-- What a round leads to, before its tools run: an ending, or the calls to answer.
abbrev pub Next : Type 0
Next = Result Ending (List Use)

-- The choice to ask back comes first, where the answer may.
unfoldable pub judge : Aid → Bool → Bool → Result Err Message → Next
unfolding asked_back
judge aid clarify final (err e) = err (fails e)
judge aid clarify final (ok m) = elim (if clarify then asked_back aid m.asked else none) [
  | some a ↦ err (asks_back a)
  | none ↦
      if no_calls m.calls || final
      then err (answers (or_text (trim_space m.content) out_of_steps))
      else ok m.calls
]

-- What comes of a round, by what it leads to.
abbrev pub on_next : {X : Type 0} → Next → (Ending → X) → (List Use → X) → X
on_next (err ending) stop go = stop ending
on_next (ok calls) stop go = go calls

-- The loop, on fuel: `none` where it runs out. The last round must answer.
module _ (env : Env) (aid : Aid) (first clarify : Bool) (budget : ℕ) where
  unfoldable pub rounds :
      (model : List (List String) → Result Err Message) (fuel round used : ℕ) (final : Bool)
      (history : List (List String)) (s : Session)
      → Option Ending × Session
  unfolding judge replies
  rounds model zero round used final history s = (none, s)
  rounds model (suc fuel) round used final history s =
      on_next (judge aid clarify final (model history)) (λ ending. (some ending, s))
        λ calls.
          let out = replies env aid first (budget - used) 0 calls s in
          let total = used + out.used in
          rounds model fuel (suc round) total (leb max_rounds round || leb budget total)
            (history ++ out.replies ∷ []) out.session

  -- An answer: as many rounds as there can be.
  unfoldable pub answer :
      (List (List String) → Result Err Message) → Session → Option Ending × Session
  unfolding rounds
  answer model s = rounds model (suc max_rounds) 1 0 false [] s
