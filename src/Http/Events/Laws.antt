-- ===== src/Http/Events/Laws.antt =====
-- What streams hear.
use boreas.Prelude.{
  ℕ, ◌≡◌, refl, Bool, true, false, not, ◌||◌, some, List, [], ◌∷◌, all, any, change, ◌==◌, map,
  arith,
}
use boreas.Http.Events.{
  Stream, Hub, Event, subscribes, publishes, closes, leaves, takes, new_hub, is_broken, wake,
  publish, end_stream, subscribe, unsubscribe, take_wake, step, run,
}

-- No stream that the map has is closed.
abbrev pub IsWhole : Hub → Type 0
IsWhole h = any is_broken h.streams ≡ false

abbrev pub is_woken : Stream → Bool
is_woken s = not s.is_sub || s.pending

any-wake : (xs : List Stream) → any is_broken xs ≡ false → any is_broken (map wake xs) ≡ false
any-wake [] h = refl
any-wake (s ∷ xs) h = ground (arith, any-wake xs, h)

any-end_stream : (xs : List Stream) → any is_broken (map end_stream xs) ≡ false
any-end_stream [] = refl
any-end_stream (s ∷ xs) = ground (arith, any-end_stream xs)

any-leaves :
    (id : ℕ) (xs : List Stream)
    → any is_broken xs ≡ false
    → any is_broken (change (λ s. s.id == id) (λ s. record s { is_sub = false }) xs) ≡ false
any-leaves id [] h = refl
any-leaves id (s ∷ xs) h = ground (arith, any-leaves id xs, h)

any-takes :
    (id : ℕ) (xs : List Stream)
    → any is_broken xs ≡ false
    → any is_broken (change (λ s. s.id == id) (λ s. record s { pending = false }) xs) ≡ false
any-takes id [] h = refl
any-takes id (s ∷ xs) h = ground (arith, any-takes id xs, h)

all-wake : (xs : List Stream) → all is_woken (map wake xs) ≡ true
all-wake [] = refl
all-wake (s ∷ xs) = ground (arith, all-wake xs)

step-IsWhole : (e : Event) (h : Hub) → IsWhole h → (h' : Hub) × (step e h ≡ some h') × IsWhole h'
unfolding step
step-IsWhole subscribes h w = (subscribe h, refl, ground (arith, w))
step-IsWhole publishes h w =
    (record h { streams = map wake h.streams }, rw w refl, any-wake h.streams w)
step-IsWhole closes h w = (
  record h { streams = map end_stream h.streams; is_open = false },
  rw w refl,
  any-end_stream h.streams,
)
step-IsWhole (leaves id) h w = (unsubscribe id h, refl, any-leaves id h.streams w)
step-IsWhole (takes id) h w = (take_wake id h, refl, any-takes id h.streams w)

run-IsWhole :
    (events : List Event) (h : Hub) → IsWhole h → (h' : Hub) × (run events h ≡ some h') × IsWhole h'
unfolding run
run-IsWhole [] h w = (h, refl, w)
run-IsWhole (e ∷ events) h w =
    let (h1, k, w1) = step-IsWhole e h w in
    let (h', k', w') = run-IsWhole events h1 w1 in (h', rw (run, k) k', w')

-- However streams come, go, take their wakes and are closed, the hub never panics, and a change that
-- is published then leaves a wake pending for every stream that is still subscribed.
pub publish_wakes :
    (events : List Event)
    → (h : Hub) × (h' : Hub) × (run events new_hub ≡ some h)
      × (publish h ≡ some h')
      × (all is_woken h'.streams ≡ true)
unfolding publish
publish_wakes events =
    let (h, k, w) = run-IsWhole events new_hub refl in
    (h, record h { streams = map wake h.streams }, k, rw w refl, all-wake h.streams)
