-- ===== src/Task/Metrics/Laws.antt =====
-- What no order of events does to the hub.
use text.Mathlib.Text.{◌==◌ as text_eq}
use boreas.Prelude.{
  ℕ, zero, suc, ◌+◌, ◌-◌, ◌*◌, ◌≤◌, String, ◌≡◌, refl, inl, inr, Bool, true, false, not, ◌&&◌, ◌||◌,
  Option, none, some, List, [], ◌∷◌, ◌++◌, all, any, find, length, leb, ltb, ◌==◌, is_some, arith,
  if◌then◌else◌, Bool-cases,
}
use boreas.Prelude.Find.{all-append}
use boreas.Task.Metrics.{
  metrics_history, Channel, Feed, Hub, change_each, drop, last_minute, is_full, send, close, pump,
  end_feed, leave_feed, join, set_channels, start_timer, receive, take_one, stop, is_timer,
}

-- A change of some elements that never panics where `p` holds, and leads to `q`.
pub change_each-all {ℓ} :
    {A : Type ℓ} (p q hit : A → Bool) (f : A → Option A)
    → ((x : A) → p x ≡ true → hit x ≡ true → (y : A) × (f x ≡ some y) × (q y ≡ true))
    → ((x : A) → p x ≡ true → hit x ≡ false → q x ≡ true)
    → (xs : List A) → all p xs ≡ true
    → (ys : List A) × (change_each hit f xs ≡ some ys) × (all q ys ≡ true)
unfolding change_each
change_each-all p q hit f k n [] h = ([], refl, refl)
change_each-all p q hit f k n (x ∷ xs) h =
    let (ys, e, good) = change_each-all p q hit f k n xs (ground arith) in
    elim (Bool-cases (hit x)) [
      | inr no_hit ↦
          let same = n x (ground arith) no_hit in
          (x ∷ ys, ground (arith, no_hit, e), ground (arith, good, same))
      | inl is_hit ↦
          let (y, changed, new) = k x (ground arith) is_hit in
          (y ∷ ys, ground (arith, is_hit, changed, e), ground (arith, good, new))
    ]

length-drop {ℓ} : {A : Type ℓ} (n : ℕ) (xs : List A) → length (drop n xs) ≡ length xs - n
length-drop zero xs = omega arith
length-drop (suc n) [] = omega arith
length-drop (suc n) (x ∷ xs) = ground (arith, length-drop n xs)

length-append {ℓ} : {A : Type ℓ} (xs ys : List A) → length (xs ++ ys) ≡ length xs + length ys
length-append [] ys = omega arith
length-append (x ∷ xs) ys = ground (arith, length-append xs ys)

module _ {ℓ} {Sample : Type ℓ} where
  abbrev pub is_watched : Feed Sample → Bool
  is_watched f = any (λ ch. ch.is_sub) f.channels

  -- A channel that is in `subs` is open, and holds what fits.
  abbrev pub is_live : Channel Sample → Bool
  is_live ch = (not ch.is_sub || not ch.closed) && leb (length ch.queue) (2 * metrics_history)

  -- A feed keeps a minute at most; it has no timer and is not stopped while it is watched.
  abbrev pub is_sound : Feed Sample → Bool
  is_sound f =
      leb (length f.recent) metrics_history
      && all is_live f.channels
      && (not (is_watched f) || (not (is_some f.idle) && not f.stopped))

  abbrev pub runs : String → Option (Feed Sample) → Bool
  runs c none = false
  runs c (some f) = not f.ended && not f.stopped && text_eq f.container c

  abbrev pub IsSound : Hub Sample → Type 0
  IsSound h =
      (all is_sound h.feeds ≡ true)
      × ((c : String) (i : ℕ)
          → h.current c ≡ some i
          → runs c (find (λ f. f.id == i) h.feeds) ≡ true)
      × (all (λ f. ltb f.id h.next) h.feeds ≡ true)

  -- Live, and no viewer where `w` says that there is none.
  abbrev live_in : Bool → Channel Sample → Bool
  live_in w ch = is_live ch && (w || not ch.is_sub)

  all-live_in :
      (w : Bool) (xs : List (Channel Sample))
      → all is_live xs ≡ true
      → (any (λ ch. ch.is_sub) xs ≡ true → w ≡ true)
      → all (live_in w) xs ≡ true
  all-live_in w [] h k = refl
  all-live_in w (x ∷ xs) h k =
      let rest = all-live_in w xs (ground arith) (λ e. k (ground (arith, e))) in
      let own : x.is_sub ≡ true → w ≡ true = λ e. k (ground (arith, e)) in
      ground (arith, rest, h, own)

  live_in-all :
      (w : Bool) (xs : List (Channel Sample))
      → all (live_in w) xs ≡ true
      → (all is_live xs ≡ true) × ((not (any (λ ch. ch.is_sub) xs) || w) ≡ true)
  live_in-all w [] h = (refl, ground arith)
  live_in-all w (x ∷ xs) h = ground (arith, live_in-all w xs, h)

  sent : Sample → Channel Sample → Channel Sample
  sent m ch = if is_full ch then ch else record ch { queue = ch.queue ++ m ∷ [] }

  send-live :
      (w : Bool) (m : Sample) (ch : Channel Sample)
      → live_in w ch ≡ true
      → ch.is_sub ≡ true
      → (y : Channel Sample) × (send m ch ≡ some y) × (live_in w y ≡ true)
  unfolding send sent
  send-live w m ch h s =
      (sent m ch, ground (arith, h, s), ground (arith, h, s, length-append ch.queue (m ∷ [])))

  close-live :
      (w : Bool) (ch : Channel Sample)
      → is_live ch ≡ true
      → ch.is_sub ≡ true
      → (y : Channel Sample) × (close ch ≡ some y) × (live_in w y ≡ true)
  unfolding close
  close-live w ch h s =
      (record ch { is_sub = false; closed = true }, ground (arith, h, s), ground (arith, h, s))

  -- What an operation makes of a sound feed: it does not panic, and leaves a sound feed of that id.
  abbrev pub Makes : Feed Sample → Option (Feed Sample) → Type ℓ
  Makes f r = (f' : Feed Sample) × (r ≡ some f') × (is_sound f' ≡ true) × (f'.id ≡ f.id)

  pub pump_sound : (m : Sample) (f : Feed Sample) → is_sound f ≡ true → Makes f (pump m f)
  unfolding pump
  pump_sound m f h = elim (Bool-cases f.ended) [
    | inl e ↦ (f, ground (arith, e), h, refl)
    | inr e ↦
        let w = is_watched f in
        let (channels, changed, live) =
          change_each-all (live_in w) (live_in w) (λ ch. ch.is_sub) (send m) (send-live w m)
            (λ x p _. p) f.channels (all-live_in w f.channels (ground arith) (λ k. k)) in
        let kept = live_in-all w channels live in
        let n = length (f.recent ++ m ∷ []) - metrics_history in
        (
          record f { recent = last_minute (f.recent ++ m ∷ []); channels = channels },
          ground (arith, e, changed),
          ground
              (arith, kept, h, length-drop n (f.recent ++ m ∷ []), length-append f.recent (m ∷ [])),
          refl,
        )
  ]

  pub end_feed_sound : (f : Feed Sample) → is_sound f ≡ true → Makes f (end_feed f)
  unfolding end_feed
  end_feed_sound f h =
      let (channels, changed, live) =
        change_each-all is_live (live_in false) (λ ch. ch.is_sub) close (close-live false)
          (λ x p k. ground (arith, p, k)) f.channels (ground arith) in
      let kept = live_in-all false channels live in
      (
        record f { ended = true; stopped = true; channels = channels },
        ground (arith, changed),
        ground (arith, kept, h),
        refl,
      )

  pub leave_feed_sound :
      (timer channel : ℕ) (f : Feed Sample)
      → is_sound f ≡ true
      → Makes f (leave_feed timer channel f)
  unfolding leave_feed
  leave_feed_sound timer channel f h =
      let hit = λ (ch : Channel Sample). ch.id == channel && ch.is_sub in
      elim (Bool-cases (any hit f.channels)) [
        | inr e ↦ (f, ground (arith, e), h, refl)
        | inl e ↦
            let w = is_watched f in
            let (channels, changed, live) =
              change_each-all (live_in w) (live_in w) hit close
                (λ x p k. close-live w x (ground (arith, p)) (ground (arith, k))) (λ x p _. p)
                f.channels (all-live_in w f.channels (ground arith) (λ k. k)) in
            let kept = live_in-all w channels live in
            (
              start_timer timer (record f { channels = channels }),
              ground (arith, e, changed),
              ground (arith, kept, h),
              ground arith,
            )
      ]

  pub join_sound :
      (channel : ℕ) (f : Feed Sample)
      → is_sound f ≡ true
      → f.ended ≡ false
      → f.stopped ≡ false
      → Makes f (join channel f)
  unfolding join
  join_sound channel f h e s =
      let new : Channel Sample = record {
        id = channel;
        queue = f.recent;
        is_sub = true;
        closed = false;
      } in
      (
        record f { idle = none; channels = f.channels ++ new ∷ [] },
        ground (arith, e),
        ground (arith, h, s, all-append is_live f.channels (new ∷ [])),
        refl,
      )

  taken : Channel Sample → Channel Sample
  taken ch = record ch { queue = take_one ch.queue }

  length-take_one : (ms : List Sample) → length (take_one ms) ≤ length ms
  length-take_one [] = omega arith
  length-take_one (m ∷ ms) = omega arith

  pub take_sound :
      (channel : ℕ) (f : Feed Sample)
      → is_sound f ≡ true
      → Makes f (set_channels f (change_each (λ ch. ch.id == channel) receive f.channels))
  unfolding taken
  take_sound channel f h =
      let w = is_watched f in
      let (channels, changed, live) =
        change_each-all (live_in w) (live_in w) (λ ch. ch.id == channel) receive
          (λ x p _. (taken x, refl, ground (arith, p, length-take_one x.queue))) (λ x p _. p)
          f.channels (all-live_in w f.channels (ground arith) (λ k. k)) in
      let kept = live_in-all w channels live in
      (record f { channels = channels }, ground (arith, changed), ground (arith, kept, h), refl)

  pub stop_sound :
      (timer : ℕ) (f : Feed Sample) → is_sound f ≡ true → is_timer timer f ≡ true → Makes f (stop f)
  stop_sound timer f h t = (record f { stopped = true }, refl, ground (arith, t, h), refl)
