-- ===== src/Task/Metrics/Reach.antt =====
-- The hub under any events.
use mathlib.Core.Path.{subst}
use text.Mathlib.Text.{◌==◌ as text_eq}
use text.Mathlib.TextPositions.{eq_refl}
use boreas.Prelude.{
  ℕ, suc, String, ◌≡◌, ◌≢◌, refl, ap, ◌∙◌, inl, inr, true, false, ◌&&◌, Option, some, List, [], ◌∷◌,
  all, find, ltb, ◌==◌, arith, Bool-cases, Option-cases,
}
use boreas.Prelude.Find.{all_sound, find_sound}
use boreas.Task.Metrics.{
  Feed, Hub, Event, watch, sample, drained, leave, fire, take, stop, is_timer, is_current,
  drained_feed, fired_feed, run, pump, end_feed, leave_feed, join, forget, on_feed, open_feed, bump,
  feed_at, unmap, step, empty_hub,
}
use boreas.Task.Metrics.Laws.{
  is_sound, runs, IsSound, Makes, pump_sound, end_feed_sound, leave_feed_sound, join_sound,
  take_sound, stop_sound,
}
use boreas.Task.Metrics.Running.{on_feed-IsSound, pump-runs, leave_feed-runs, join-runs, take-runs}

module _ {ℓ} {Sample : Type ℓ} (h : Hub Sample) (sound : IsSound h) where
  -- A step goes on to a sound hub.
  abbrev pub GoesOn : Option (Hub Sample) → Type ℓ
  GoesOn r = (h' : Hub Sample) × (r ≡ some h') × IsSound h'

  -- An operation at a feed that keeps every feed running.
  kept_running :
      (id : ℕ) (f : Feed Sample → Option (Feed Sample))
      → ((x : Feed Sample)
          → find (λ y. y.id == id) h.feeds ≡ some x
          → is_sound x ≡ true
          → Makes x (f x))
      → ((c : String) (x y : Feed Sample)
          → f x ≡ some y
          → runs c (some x) ≡ true
          → runs c (some y) ≡ true)
      → GoesOn (on_feed id f h)
  kept_running id f makes keeps =
      let (feeds, mapped, fresh) = sound in
      on_feed-IsSound id f h feeds fresh makes λ c i e. (mapped c i e, λ _ x y _. keeps c x y)

  -- A feed that the map has runs.
  current-runs :
      (c : String) (id : ℕ) (x : Feed Sample)
      → h.current c ≡ some id
      → find (λ y. y.id == id) h.feeds ≡ some x
      → (x.ended ≡ false) × (x.stopped ≡ false)
  current-runs c id x m found =
      let (feeds, mapped, fresh) = sound in
      let r = subst (λ o. runs c o ≡ true) found (mapped c id m) in ground (arith, r)

  bump-IsSound : IsSound (bump h)
  bump-IsSound = let (feeds, mapped, fresh) = sound in (feeds, mapped, fresh_next h.feeds fresh)
    where
      fresh_next :
          (xs : List (Feed Sample))
          → all (λ x. ltb x.id h.next) xs ≡ true
          → all (λ x. ltb x.id (suc h.next)) xs ≡ true
      fresh_next [] k = refl
      fresh_next (x ∷ xs) k = ground (arith, fresh_next xs, k)

  -- Nothing leads to a feed that was taken out of the map.
  forget-current :
      (id : ℕ) (f : Feed Sample) (c : String) (i : ℕ)
      → feed_at id h ≡ some f
      → forget f h.current c ≡ some i
      → (h.current c ≡ some i) × (i ≢ id)
  forget-current id f c i found m =
      let (feeds, mapped, fresh) = sound in
      let (k, is_id) = find_sound (λ y. y.id == id) h.feeds f found in
      elim (Bool-cases (text_eq f.container c)) [
        | inr other ↦
            let still : h.current c ≡ some i = ground (arith, other, m) in
            (
              still,
              λ same.
                  let r = subst (λ o. runs c o ≡ true) found (mapped c id (still ∙ ap some same)) in
                  ground (arith, other, r),
            )
        | inl own ↦ elim (Option-cases (h.current c)) [
          | inl n ↦ ground (arith, own, n, m)
          | inr (j, e) ↦ ground (arith, own, e, m, is_id)
        ]
      ]

  -- The operation on a feed that is taken out of the map.
  unmapped_running :
      (id : ℕ) (f : Feed Sample) (change : Feed Sample → Option (Feed Sample))
      → feed_at id h ≡ some f
      → ((x : Feed Sample) → x ≡ f → is_sound x ≡ true → Makes x (change x))
      → GoesOn (on_feed id change (unmap f h))
  unmapped_running id f change found makes =
      let (feeds, mapped, fresh) = sound in
      on_feed-IsSound id change (unmap f h) feeds fresh (λ x e. makes x (ground (arith, e, found)))
        λ c i m.
          let (still, other) = forget-current id f c i found m in
          (mapped c i still, λ same. elim (other same) [ ])

  drained_sound : (id : ℕ) → GoesOn (drained_feed id h (feed_at id h))
  drained_sound id = elim (Option-cases (feed_at id h)) [
    | inl n ↦ (h, rw n refl, sound)
    | inr (f, found) ↦ elim (Bool-cases f.ended) [
      | inl e ↦ (h, rw (found, e) refl, sound)
      | inr e ↦
          let (h', step_to, s) =
            unmapped_running id f end_feed found (λ x _ k. end_feed_sound x k) in
          (h', rw (found, e) step_to, s)
    ]
  ]

  fire_sound : (id timer : ℕ) → GoesOn (fired_feed id timer h (feed_at id h))
  fire_sound id timer = elim (Option-cases (feed_at id h)) [
    | inl n ↦ (h, rw n refl, sound)
    | inr (f, found) ↦
        elim (Bool-cases (is_timer timer f && is_current f (h.current f.container))) [
          | inr e ↦ (h, rw (found, e) refl, sound)
          | inl e ↦
              let timed : is_timer timer f ≡ true = ground (arith, e) in
              let (h', step_to, s) =
                unmapped_running id f stop found
                  (λ x same k. stop_sound timer x k (rw same timed)) in
              (h', rw (found, e) step_to, s)
        ]
  ]

  join_current :
      (c : String) (id : ℕ) → h.current c ≡ some id → GoesOn (on_feed id (join h.next) (bump h))
  join_current c id m =
      let (feeds, mapped, fresh) = bump-IsSound in
      on_feed-IsSound id (join h.next) (bump h) feeds fresh
        (λ x found s. let (e, k) = current-runs c id x m found in join_sound h.next x s e k)
        λ d i e. (mapped d i e, λ _ x y _. join-runs d x y h.next)

  not_next :
      (c : String) (i : ℕ) → runs c (find (λ f. f.id == i) h.feeds) ≡ true → (h.next == i) ≡ false
  not_next c i r = elim (Option-cases (find (λ f. f.id == i) h.feeds)) [
    | inl n ↦ ground (arith, n, r)
    | inr (x, found) ↦
        let (feeds, mapped, fresh) = sound in
        let (m, is_i) = find_sound (λ f. f.id == i) h.feeds x found in
        let below = all_sound (λ x. ltb x.id h.next) m fresh in ground (arith, is_i, below)
  ]

  open_feed-IsSound : (container : String) → IsSound (open_feed container h)
  open_feed-IsSound container =
      let (feeds, mapped, fresh) = bump-IsSound in
      (
        ground (arith, feeds),
        λ c i m. elim (Bool-cases (text_eq container c)) [
          | inl own ↦ ground (arith, own, m)
          | inr other ↦ let r = mapped c i (ground (arith, other, m)) in rw (not_next c i r) r
        ],
        ground (arith, fresh),
      )

  new_current : (container : String) → (open_feed container h).current container ≡ some h.next
  new_current container = rw (eq_refl container) refl

module _ {ℓ} {Sample : Type ℓ} where
  step-IsSound :
      (e : Event Sample) (h : Hub Sample)
      → IsSound h
      → (h' : Hub Sample) × (step e h ≡ some h') × IsSound h'
  unfolding step
  step-IsSound (watch container opens) h sound = elim (Option-cases (h.current container)) [
    | inr (id, e) ↦ let (h', k, s) = join_current h sound container id e in (h', rw e k, s)
    | inl n ↦ elim (Bool-cases opens) [
      | inr shut ↦ (h, rw (n, shut) refl, sound)
      | inl opened ↦
          let after = open_feed container h in
          let (h', k, s) =
            join_current after (open_feed-IsSound h sound container) container h.next
              (new_current h sound container) in
          (h', rw (n, opened) k, s)
    ]
  ]
  step-IsSound (sample id m) h sound =
      kept_running h sound id (pump m) (λ x _ s. pump_sound m x s) (λ c x y. pump-runs c x y m)
  step-IsSound (drained id) h sound = drained_sound h sound id
  step-IsSound (leave id channel) h sound =
      kept_running (bump h) (bump-IsSound h sound) id (leave_feed h.next channel)
        (λ x _ s. leave_feed_sound h.next channel x s)
        (λ c x y. leave_feed-runs c x y h.next channel)
  step-IsSound (fire id timer) h sound = fire_sound h sound id timer
  step-IsSound (take id channel) h sound =
      kept_running h sound id _ (λ x _ s. take_sound channel x s) (λ c x y. take-runs c x y channel)

  run-IsSound :
      (events : List (Event Sample)) (h : Hub Sample)
      → IsSound h
      → (h' : Hub Sample) × (run events h ≡ some h') × IsSound h'
  unfolding run
  run-IsSound [] h sound = (h, refl, sound)
  run-IsSound (e ∷ events) h sound =
      let (h1, k, s) = step-IsSound e h sound in
      let (h', k', s') = run-IsSound events h1 s in (h', rw (run, k) k', s')

  -- Whatever viewers, samples, timers and ends of streams come in whatever order, the hub never
  -- panics: nothing is sent on a closed channel, none is closed twice, and no viewer joins a feed
  -- that ended. Every feed keeps a minute of samples at most, a replay fits the channel that it
  -- fills, and while anybody watches a feed it has no timer and its stream is not stopped.
  pub hub_never_panics :
      (events : List (Event Sample))
      → (h : Hub Sample) × (run events empty_hub ≡ some h) × IsSound h
  hub_never_panics events = run-IsSound events empty_hub (refl, λ c i m. cc, refl)
