-- ===== src/Bora/Rounds/Ends.antt =====
-- How an answer ends: with sound buttons, after at most seven requests to the model, and with choices
-- that can be shown.
use boreas.Prelude.{
  ℕ, zero, suc, ◌+◌, ◌≤◌, ◌<◌, ◌≡◌, refl, String, Bool, true, false, Option, some, List, [], arith,
}
use boreas.Core.Errors.{Err, Result, ok, err}
use boreas.App.{Env}
use boreas.Bora.Aid.{Aid}
use boreas.Bora.State.{Session}
use boreas.Bora.Tools.{Use}
use boreas.Bora.Tools.Buttons.{IsSound}
use boreas.Bora.Rounds.{Message, Ending, Next, max_rounds, judge, on_next, rounds, answer}
use boreas.Bora.Rounds.Runs.{use_tool-IsSound, rounds_keep}
use boreas.Bora.Rounds.Reads.{calls, answer_calls, rounds-calls, IsGuarded, calls-IsGuarded}

module _ (env : Env) (aid : Aid) (first clarify : Bool) (budget : ℕ)
    (model : List (List String) → Result Err Message) where
  -- Whatever the model says in an answer, and whatever tools it calls, in any order and number, with
  -- whatever arguments and replies, the buttons are sound at the end if they were at the start: each is
  -- for a project and, where its op names one, a task that the answer covers, in a role of the user that
  -- suffices for the op's route, names a registry credential only for an admin and, added as a grant, is
  -- below owner; no two make the same change to the same project, task and user, and there are at most
  -- ten.
  pub answer-IsSound :
      (s : Session) → IsSound s.bora → IsSound (answer env aid first clarify budget model s).1.bora
  unfolding answer
  answer-IsSound s h =
      rounds_keep env aid first (λ t. IsSound t.bora) (use_tool-IsSound env aid first) clarify
        budget model (suc max_rounds) 1 0 false [] s h

  -- Whatever the model says and calls, an answer leaves the session that the calls of its rounds leave,
  -- those that the budget lets run, one after the other; and past any of these calls by which code was
  -- read or the code search asked, whatever came of it, or from the start where the answer began with
  -- an image, the buttons that it had stay and those that are added only start, stop or restart a task.
  pub answer-AddsSafe :
      (s : Session)
      → ((answer env aid first clarify budget model s).1
          ≡ calls env aid first (answer_calls env aid first clarify budget model s) s)
        × IsGuarded env aid first s (answer_calls env aid first clarify budget model s)
  unfolding answer
  answer-AddsSafe s = (
    rounds-calls env aid first clarify budget model (suc max_rounds) 1 0 false [] s,
    calls-IsGuarded env aid first s (answer_calls env aid first clarify budget model s),
  )

  abbrev HasEnded : Option Ending × Session → Type 0
  HasEnded out = (e : Ending) × (out.0 ≡ some e)

  on_next_ends :
      (n : Next) (s : Session) (go : List Use → Option Ending × Session)
      → ((us : List Use) → n ≡ ok us → HasEnded (go us))
      → HasEnded (on_next n (λ e. (some e, s)) go)
  on_next_ends (err e) s go k = (e, refl)
  on_next_ends (ok us) s go k = k us refl

  judge_final :
      (m : Result Err Message) (us : List Use) → judge aid clarify true m ≡ ok us → true ≡ false
  unfolding judge
  judge_final m us h = ground arith

  -- A round that is final ends; before that there is fuel for the rounds that are left.
  rounds_end :
      (fuel round used : ℕ) (final : Bool) (history : List (List String)) (s : Session)
      → 0 < fuel
      → (final ≡ false → (round ≤ max_rounds) × (max_rounds + 2 ≤ round + fuel))
      → HasEnded (rounds env aid first clarify budget model fuel round used final history s)
  unfolding rounds
  rounds_end zero round used final history s h k = absurd (omega arith)
  rounds_end (suc fuel) round used true history s h k =
      on_next_ends (judge aid clarify true (model history)) s _
        λ us e. cc (judge_final (model history) us e)
  rounds_end (suc fuel) round used false history s h k =
      on_next_ends (judge aid clarify false (model history)) s _ λ us e.
        rounds_end fuel (suc round) _ _ _ _ (omega (arith, (k refl).0, (k refl).1))
          λ more. ground (arith, (k refl).0, (k refl).1, more)

  -- Whatever the model says, an answer ends, after at most seven requests to it: it answers, asks back
  -- or fails with the model's error.
  pub answer_ends :
      (s : Session) → (e : Ending) × ((answer env aid first clarify budget model s).0 ≡ some e)
  unfolding answer
  answer_ends s = rounds_end (suc max_rounds) 1 0 false [] s (omega arith) λ _. omega arith
