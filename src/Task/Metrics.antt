-- ===== src/Task/Metrics.antt =====
-- `metricsHub` of internal/service/task_service.go: one stream of samples per container, its last
-- minute, and the viewers' channels. Feeds are shared objects: the map, the pump of a feed, the
-- viewers and the timers hold them by id. `subs` is the flag of a channel. A send on a closed channel,
-- a second close and a write to the nil map that `pump` leaves are panics, here `none`.
pub mod Laws
pub mod Running
pub mod Reach
use text.Mathlib.Text.{◌==◌ as text_eq}
use boreas.Prelude.{
  ℕ, zero, suc, ◌-◌, ◌*◌, String, Bool, true, false, not, ◌&&◌, ◌||◌, Option, none, some, List, [],
  ◌∷◌, ◌++◌, any, find, length, map, leb, ltb, ◌==◌, if◌then◌else◌,
}

abbrev pub metrics_history : ℕ
metrics_history = 60

-- The channel holds what its viewer has not yet taken, oldest first.
pub record Channel {ℓ} (Sample : Type ℓ) : Type ℓ where
  pub id : ℕ
  pub queue : List Sample
  pub is_sub : Bool
  pub closed : Bool

-- `ended`: the pump is past its loop, and `subs` is nil. `stopped`: the stream's context is
-- cancelled. `idle` is the timer.
pub record Feed {ℓ} (Sample : Type ℓ) : Type ℓ where
  pub id : ℕ
  pub container : String
  pub recent : List Sample
  pub channels : List (Channel Sample)
  pub idle : Option ℕ
  pub ended : Bool
  pub stopped : Bool

-- `current` is the map; `next` gives ids to feeds, channels and timers.
pub record Hub {ℓ} (Sample : Type ℓ) : Type ℓ where
  pub feeds : List (Feed Sample)
  pub current : String → Option ℕ
  pub next : ℕ

pub data Event {ℓ} (Sample : Type ℓ) : Type ℓ where
  -- a viewer of the container; whether its stream opens, if it has none
  watch : String → Bool → Event Sample
  -- a sample of a feed, and the end of its stream
  sample : ℕ → Sample → Event Sample
  drained : ℕ → Event Sample
  -- a viewer's context ends: feed and channel
  leave : ℕ → ℕ → Event Sample
  -- the timer of a feed fires
  fire : ℕ → ℕ → Event Sample
  -- a viewer takes a sample
  take : ℕ → ℕ → Event Sample

-- The objects that are hit, changed; a panic of one is a panic.
unfoldable pub change_each {ℓ} :
    {A : Type ℓ} → (A → Bool) → (A → Option A) → List A → Option (List A)
change_each hit f [] = some []
change_each hit f (x ∷ xs) =
    let rest = change_each hit f xs in
    elim (if hit x then f x else some x) [
      | none ↦ none
      | some y ↦ elim rest [ none ↦ none | some ys ↦ some (y ∷ ys) ]
    ]

-- The first object that is hit, changed.
unfoldable pub change_first {ℓ} :
    {A : Type ℓ} → (A → Bool) → (A → Option A) → List A → Option (List A)
change_first hit f [] = some []
change_first hit f (x ∷ xs) =
    let rest = change_first hit f xs in
    if hit x
    then elim (f x) [ none ↦ none | some y ↦ some (y ∷ xs) ]
    else elim rest [ none ↦ none | some ys ↦ some (x ∷ ys) ]

abbrev pub drop {ℓ} : {A : Type ℓ} → ℕ → List A → List A
drop zero xs = xs
drop (suc n) [] = []
drop (suc n) (x ∷ xs) = drop n xs

module _ {ℓ} {Sample : Type ℓ} where
  abbrev pub empty_hub : Hub Sample
  empty_hub = record { feeds = []; current = λ _. none; next = 0 }

  abbrev pub set_feeds : Hub Sample → Option (List (Feed Sample)) → Option (Hub Sample)
  set_feeds h none = none
  set_feeds h (some feeds) = some (record h { feeds = feeds })

  -- What the pointer with that id leads to, changed.
  abbrev pub on_feed : ℕ → (Feed Sample → Option (Feed Sample)) → Hub Sample → Option (Hub Sample)
  on_feed id f h = set_feeds h (change_first (λ x. x.id == id) f h.feeds)

  -- `if h.feeds[containerID] == f { delete(h.feeds, containerID) }`
  abbrev pub forget : Feed Sample → (String → Option ℕ) → String → Option ℕ
  forget f current c =
      if text_eq f.container c
      then elim (current c) [ none ↦ none | some i ↦ if i == f.id then none else some i ]
      else current c

  -- `recent[max(0, len(recent)-metricsHistory):]`
  abbrev pub last_minute : List Sample → List Sample
  last_minute ms = drop (length ms - metrics_history) ms

  abbrev pub is_full : Channel Sample → Bool
  is_full ch = leb (2 * metrics_history) (length ch.queue)

  -- `case ch <- m: default:`
  unfoldable pub send : Sample → Channel Sample → Option (Channel Sample)
  send m ch =
      if ch.closed
      then none
      else some (if is_full ch then ch else record ch { queue = ch.queue ++ m ∷ [] })

  unfoldable pub close : Channel Sample → Option (Channel Sample)
  close ch = if ch.closed then none else some (record ch { is_sub = false; closed = true })

  abbrev pub set_channels : Feed Sample → Option (List (Channel Sample)) → Option (Feed Sample)
  set_channels f none = none
  set_channels f (some channels) = some (record f { channels = channels })

  -- One turn of the loop of `pump`.
  unfoldable pub pump : Sample → Feed Sample → Option (Feed Sample)
  unfolding change_each send
  pump m f =
      if f.ended
      then some f
      else set_channels (record f { recent = last_minute (f.recent ++ m ∷ []) })
          (change_each (λ ch. ch.is_sub) (send m) f.channels)

  -- What `pump` does behind its loop.
  unfoldable pub end_feed : Feed Sample → Option (Feed Sample)
  unfolding change_each close
  end_feed f =
      set_channels (record f { ended = true; stopped = true })
        (change_each (λ ch. ch.is_sub) close f.channels)

  -- The last viewer to leave starts the timer.
  abbrev pub start_timer : ℕ → Feed Sample → Feed Sample
  start_timer timer f =
      if any (λ ch. ch.is_sub) f.channels then f else record f { idle = some timer }

  abbrev pub timer_after : ℕ → Option (Feed Sample) → Option (Feed Sample)
  timer_after timer none = none
  timer_after timer (some f) = some (start_timer timer f)

  unfoldable pub leave_feed : ℕ → ℕ → Feed Sample → Option (Feed Sample)
  unfolding change_each close
  leave_feed timer channel f =
      let hit = λ (ch : Channel Sample). ch.id == channel && ch.is_sub in
      if any hit f.channels
      then timer_after timer (set_channels f (change_each hit close f.channels))
      else some f

  -- `f.idle == idle && h.feeds[containerID] == f`
  abbrev pub is_timer : ℕ → Feed Sample → Bool
  is_timer timer f = elim f.idle [ none ↦ false | some t ↦ t == timer ]

  abbrev pub is_current : Feed Sample → Option ℕ → Bool
  is_current f none = false
  is_current f (some i) = i == f.id

  abbrev pub stop : Feed Sample → Option (Feed Sample)
  stop f = some (record f { stopped = true })

  -- A viewer joins: the timer goes, the last minute is replayed. `replay` fits the channel.
  unfoldable pub join : ℕ → Feed Sample → Option (Feed Sample)
  join channel f =
      if f.ended
      then none
      else some (record f {
        idle = none;
        channels =
            f.channels
            ++ record { id = channel; queue = f.recent; is_sub = true; closed = false } ∷ [];
      })

  abbrev pub take_one : List Sample → List Sample
  take_one [] = []
  take_one (m ∷ ms) = ms

  abbrev pub receive : Channel Sample → Option (Channel Sample)
  receive ch = some (record ch { queue = take_one ch.queue })

  abbrev pub new_feed : ℕ → String → Feed Sample
  new_feed id container = record {
    id = id;
    container = container;
    recent = [];
    channels = [];
    idle = none;
    ended = false;
    stopped = false;
  }

  abbrev pub open_feed : String → Hub Sample → Hub Sample
  open_feed container h = record {
    feeds = new_feed h.next container ∷ h.feeds;
    current = λ c. if text_eq container c then some h.next else h.current c;
    next = suc h.next;
  }

  abbrev pub bump : Hub Sample → Hub Sample
  bump h = record h { next = suc h.next }

  abbrev pub feed_at : ℕ → Hub Sample → Option (Feed Sample)
  feed_at id h = find (λ f. f.id == id) h.feeds

  abbrev pub unmap : Feed Sample → Hub Sample → Hub Sample
  unmap f h = record h { current = forget f h.current }

  abbrev pub drained_feed : ℕ → Hub Sample → Option (Feed Sample) → Option (Hub Sample)
  drained_feed id h none = some h
  drained_feed id h (some f) = if f.ended then some h else on_feed id end_feed (unmap f h)

  abbrev pub fired_feed : ℕ → ℕ → Hub Sample → Option (Feed Sample) → Option (Hub Sample)
  fired_feed id timer h none = some h
  fired_feed id timer h (some f) =
      if is_timer timer f && is_current f (h.current f.container)
      then on_feed id stop (unmap f h)
      else some h

  abbrev pub watch_feed : String → Bool → Hub Sample → Option ℕ → Option (Hub Sample)
  watch_feed container opens h (some id) = on_feed id (join h.next) (bump h)
  watch_feed container opens h none =
      let opened = open_feed container h in
      if opens then on_feed h.next (join opened.next) (bump opened) else some h

  -- An event at an object that is not there changes nothing.
  unfoldable pub step : Event Sample → Hub Sample → Option (Hub Sample)
  unfolding pump end_feed leave_feed join change_each change_first
  step (watch container opens) h = watch_feed container opens h (h.current container)
  step (sample id m) h = on_feed id (pump m) h
  step (drained id) h = drained_feed id h (feed_at id h)
  step (leave id channel) h = on_feed id (leave_feed h.next channel) (bump h)
  step (fire id timer) h = fired_feed id timer h (feed_at id h)
  step (take id channel) h =
      on_feed id (λ f. set_channels f (change_each (λ ch. ch.id == channel) receive f.channels)) h

  -- Events one after the other.
  unfoldable pub run : List (Event Sample) → Hub Sample → Option (Hub Sample)
  unfolding step
  run [] h = some h
  run (e ∷ events) h = elim (step e h) [ none ↦ none | some h' ↦ run events h' ]
