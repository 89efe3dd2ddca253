-- ===== src/Http/Events.antt =====
-- `Hub` of internal/transport/http/events.go: the streams that a change wakes. A channel has room for
-- one wake; `is_sub` says that the map `subs` has it, `is_open` that the map is not nil. A send on a
-- closed channel and a second close are panics, here `none`.
pub mod Laws
use boreas.Prelude.{
  ℕ, suc, Bool, true, false, not, ◌&&◌, Option, none, some, List, [], ◌∷◌, any, change, ◌==◌, map,
  if◌then◌else◌,
}

pub record Stream : Type 0 where
  pub id : ℕ
  pub pending : Bool
  pub is_sub : Bool
  pub closed : Bool

pub record Hub : Type 0 where
  pub streams : List Stream
  pub is_open : Bool
  pub next : ℕ

pub data Event : Type 0 where
  subscribes publishes closes : Event
  -- a stream that ends, or takes its wake
  leaves takes : ℕ → Event

abbrev pub new_hub : Hub
new_hub = record { streams = []; is_open = true; next = 0 }

abbrev pub is_broken : Stream → Bool
is_broken s = s.is_sub && s.closed

abbrev pub wake : Stream → Stream
wake s = if s.is_sub then record s { pending = true } else s

-- `Hub.Publish`
unfoldable pub publish : Hub → Option Hub
publish h =
    if any is_broken h.streams then none else some (record h { streams = map wake h.streams })

abbrev pub end_stream : Stream → Stream
end_stream s = if s.is_sub then record s { is_sub = false; closed = true } else s

-- `Hub.Close`
unfoldable pub close : Hub → Option Hub
close h =
    if any is_broken h.streams
    then none
    else some (record h { streams = map end_stream h.streams; is_open = false })

-- `Hub.subscribe`: the first wake is pending, as changes may have been missed.
unfoldable pub subscribe : Hub → Hub
subscribe h = record h {
  streams =
      record { id = h.next; pending = true; is_sub = h.is_open; closed = not h.is_open }
      ∷ h.streams;
  next = suc h.next;
}

-- The function that `subscribe` returns.
unfoldable pub unsubscribe : ℕ → Hub → Hub
unsubscribe id h = record h {
  streams = change (λ s. s.id == id) (λ s. record s { is_sub = false }) h.streams;
}

abbrev pub take_wake : ℕ → Hub → Hub
take_wake id h = record h {
  streams = change (λ s. s.id == id) (λ s. record s { pending = false }) h.streams;
}

unfoldable pub step : Event → Hub → Option Hub
unfolding publish close subscribe unsubscribe
step subscribes h = some (subscribe h)
step publishes h = publish h
step closes h = close h
step (leaves id) h = some (unsubscribe id h)
step (takes id) h = some (take_wake id h)

unfoldable pub run : List Event → Hub → Option Hub
unfolding step
run [] h = some h
run (e ∷ events) h = elim (step e h) [ none ↦ none | some h' ↦ run events h' ]
