-- ===== src/Bora/Follow.antt =====
-- `boraTurn` and its `publish`, `end` and `follow` of internal/service/bora.go: the events of a turn and
-- one stream that follows them. The steps that hold the turn's lock are atomic, and the sends of a
-- batch, the waits and the end of the stream's context come between them in any order. The channel
-- `wake`, closed and replaced at each event, is the number of times it was: a channel read as `n` is
-- closed once that number has passed `n`. A second close of the last channel is a panic, here `none`.
pub mod Laws
pub mod Replay
use boreas.Prelude.{
  ℕ, zero, suc, ◌+◌, String, Bool, true, false, Option, none, some, List, [], ◌∷◌, ◌++◌, length,
  ltb, if◌then◌else◌,
}
use boreas.Core.Errors.{Err}
use boreas.Core.Model.{Uuid}

-- `BoraEvent`; `done` has the title of a first answer, and the index of its message.
pub data BoraEvent : Type 0 where
  conversation : Uuid → BoraEvent
  step say delta : (text : String) → BoraEvent
  reset stopped : BoraEvent
  done : (title : String) → (message : ℕ) → BoraEvent
  error : Err → BoraEvent

pub record Log : Type 0 where
  pub events : List BoraEvent
  pub wake : ℕ
  pub over : Bool

-- Where the goroutine of `follow` is: before it takes the lock, sending the rest of a batch, waiting on
-- the channel it read, or past its return, by the turn's end or by its context's.
pub data Phase : Type 0 where
  looking sending waiting closed left : Phase

pub record Follower : Type 0 where
  pub phase : Phase
  pub sent : ℕ
  -- `events`, without those of it that are sent, and its length
  pub batch : List BoraEvent
  pub size : ℕ
  pub wake : ℕ
  pub over : Bool
  -- What the reader got.
  pub out : List BoraEvent

pub record Stream : Type 0 where
  pub log : Log
  pub follower : Follower

-- A turn is over once, and an event after that is dropped.
unfoldable pub publish : BoraEvent → Log → Log
publish e t =
    if t.over then t else record { events = t.events ++ e ∷ []; wake = suc t.wake; over = false }

unfoldable pub end_turn : Log → Option Log
end_turn t = if t.over then none else some (record t { wake = suc t.wake; over = true })

-- `t.events[sent:]`
abbrev pub drop : ℕ → List BoraEvent → List BoraEvent
drop zero es = es
drop (suc n) [] = []
drop (suc n) (e ∷ es) = drop n es

-- What `follow` reads under the lock.
unfoldable pub look : Log → Follower → Follower
look t f = record f {
  phase = sending;
  batch = drop f.sent t.events;
  size = length (drop f.sent t.events);
  wake = t.wake;
  over = t.over;
}

-- The next send of the batch, or what comes after the last.
abbrev pub advance : List BoraEvent → Follower → Follower
advance [] f =
    if f.over
    then record f { phase = closed }
    else record f { phase = waiting; sent = f.sent + f.size }
advance (e ∷ es) f = record f { batch = es; out = f.out ++ e ∷ [] }

abbrev pub is_closed : Log → ℕ → Bool
is_closed t n = ltb n t.wake

-- A step of the turn, of the stream, or of the reader, who may leave while the stream sends or waits.
pub data Step : Type 0 where
  publishes : BoraEvent → Step
  ends runs leaves : Step

-- The step of the stream's goroutine; a wait goes on where the channel is not closed.
abbrev pub run : Phase → Log → Follower → Follower
run looking t f = look t f
run sending t f = advance f.batch f
run waiting t f = if is_closed t f.wake then record f { phase = looking } else f
run closed t f = f
run left t f = f

abbrev pub leave : Phase → Follower → Follower
leave sending f = record f { phase = left }
leave waiting f = record f { phase = left }
leave _ f = f

abbrev pub with_log : Follower → Option Log → Option Stream
with_log f none = none
with_log f (some t) = some (record { log = t; follower = f })

unfoldable pub happens : Step → Stream → Option Stream
unfolding publish end_turn look
happens (publishes e) s = some (record s { log = publish e s.log })
happens ends s = with_log s.follower (end_turn s.log)
happens runs s = some (record s { follower = run s.follower.phase s.log s.follower })
happens leaves s = some (record s { follower = leave s.follower.phase s.follower })

abbrev pub then_all : (Stream → Option Stream) → Option Stream → Option Stream
then_all f none = none
then_all f (some s) = f s

unfoldable pub happen : List Step → Stream → Option Stream
unfolding happens
happen [] s = some s
happen (x ∷ xs) s = then_all (happen xs) (happens x s)

-- A stream that starts to follow a turn, at any point of it.
abbrev pub follow : Log → Stream
follow t = record {
  log = t;
  follower = record {
    phase = looking;
    sent = 0;
    batch = [];
    size = 0;
    wake = 0;
    over = false;
    out = [];
  };
}
