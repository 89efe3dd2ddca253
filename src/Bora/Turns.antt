-- ===== src/Bora/Turns.antt =====
-- The turns that run, of internal/service/bora.go: `enter`, the end of `runTurn`, `turn`, `StopBora`,
-- `StopAllBora` and the turns that `DeleteBora` stops. Each holds `turnsMu`, so they happen one by one.
pub mod Laws
use boreas.Prelude.{
  ℕ, String, Bool, true, false, not, ◌&&◌, ◌||◌, Option, none, some, List, [], ◌∷◌, any, find, keep,
  change, count, length, map, leb, ◌==◌, if◌then◌else◌,
}
use boreas.Core.Errors.{Err, Result, ok, err, too_many, err_conflict}
use boreas.Core.Model.{Uuid}

abbrev pub turns_per_user : ℕ
turns_per_user = 3

abbrev pub turns_in_flight : ℕ
turns_in_flight = 20

abbrev pub err_too_many : Err
err_too_many = record { kind = too_many; text = "too many requests" }

-- What the gate knows of a `boraTurn`; a turn is keyed by its conversation.
pub record Turn : Type 0 where
  pub conv : Uuid
  pub user : Uuid
  pub first : Bool
  pub cancelled : Bool

abbrev pub is_conv : Uuid → Turn → Bool
is_conv id t = t.conv == id

abbrev pub is_of : Uuid → Turn → Bool
is_of user t = t.user == user

-- A conversation has one turn at a time, and the gate refuses at once.
unfoldable pub enter : Turn → List Turn → Result Err (List Turn)
enter t turns =
    if any (is_conv t.conv) turns
    then err err_conflict
    else if leb turns_per_user (count (is_of t.user) turns) || leb turns_in_flight (length turns)
    then err err_too_many
    else ok (t ∷ turns)

-- A turn that ends leaves the gate before its last event.
unfoldable pub leave : Uuid → List Turn → List Turn
leave id turns = keep (λ t. not (is_conv id t)) turns

abbrev pub cancel : Turn → Turn
cancel t = record t { cancelled = true }

-- The turn of a conversation, for the user who asked.
unfoldable pub turn : Uuid → Uuid → List Turn → Option Turn
turn actor id turns = elim (find (is_conv id) turns) [
  | none ↦ none
  | some t ↦ if is_of actor t then some t else none
]

abbrev pub is_own : Uuid → Uuid → Turn → Bool
is_own actor id t = is_conv id t && is_of actor t

abbrev pub stop_found : Uuid → Uuid → Option Turn → List Turn → List Turn
stop_found actor id none turns = turns
stop_found actor id (some t) turns = change (is_own actor id) cancel turns

-- `StopBora`: a conversation has one turn, so the one that `turn` finds is the one to stop.
unfoldable pub stop : Uuid → Uuid → List Turn → List Turn
unfolding turn
stop actor id turns = stop_found actor id (turn actor id turns) turns

unfoldable pub stop_all : List Turn → List Turn
stop_all turns = map cancel turns

-- No id is every conversation of the user's.
abbrev pub is_deleted : Uuid → Option Uuid → Turn → Bool
is_deleted actor none t = is_of actor t
is_deleted actor (some id) t = is_of actor t && is_conv id t

unfoldable pub stop_deleted : Uuid → Option Uuid → List Turn → List Turn
stop_deleted actor id turns = change (is_deleted actor id) cancel turns

-- What happens to the gate.
pub data Move : Type 0 where
  asks : Turn → Move
  ends : Uuid → Move
  stops : (actor id : Uuid) → Move
  deletes : (actor : Uuid) → Option Uuid → Move
  shuts_down : Move

abbrev pub entered : List Turn → Result Err (List Turn) → List Turn
entered turns (ok next) = next
entered turns (err e) = turns

abbrev pub move : Move → List Turn → List Turn
move (asks t) turns = entered turns (enter t turns)
move (ends id) turns = leave id turns
move (stops actor id) turns = stop actor id turns
move (deletes actor id) turns = stop_deleted actor id turns
move shuts_down turns = stop_all turns

unfoldable pub moves : List Move → List Turn → List Turn
moves [] turns = turns
moves (m ∷ ms) turns = moves ms (move m turns)
