-- ===== src/Task/Metrics/Running.antt =====
-- What an operation at one feed leaves of the others.
use boreas.Prelude.{
  ℕ, String, ◌≡◌, refl, inl, inr, Bool, true, false, ◌&&◌, Option, some, List, [], ◌∷◌, all, find,
  ltb, ◌==◌, arith, Bool-cases, Option-cases,
}
use boreas.Task.Metrics.{
  Feed, Hub, change_each, change_first, pump, send, close, leave_feed, join, set_channels, on_feed,
  receive,
}
use boreas.Task.Metrics.Laws.{is_sound, runs, IsSound, Makes}

module _ {ℓ} {Sample : Type ℓ} (id : ℕ) (f : Feed Sample → Option (Feed Sample)) where
  abbrev pub at : ℕ → Feed Sample → Bool
  at i x = x.id == i

  -- The operation leaves the feed that it finds running for a container.
  abbrev pub Keeps : List (Feed Sample) → String → Type ℓ
  Keeps xs c =
      (x y : Feed Sample)
      → find (at id) xs ≡ some x
      → f x ≡ some y
      → runs c (some x) ≡ true
      → runs c (some y) ≡ true

  abbrev pub MakesFound : List (Feed Sample) → Type ℓ
  MakesFound xs = (x : Feed Sample) → find (at id) xs ≡ some x → is_sound x ≡ true → Makes x (f x)

  abbrev After : ℕ → List (Feed Sample) → List (Feed Sample) → Type ℓ
  After n xs ys =
      (all is_sound ys ≡ true)
      × (all (λ x. ltb x.id n) ys ≡ true)
      × ((c : String) (i : ℕ)
          → (i ≡ id → Keeps xs c)
          → runs c (find (at i) xs) ≡ true
          → runs c (find (at i) ys) ≡ true)

  found_head :
      (x y : Feed Sample) (xs : List (Feed Sample)) (c : String) (i : ℕ)
      → (x.id == id) ≡ true
      → f x ≡ some y
      → y.id ≡ x.id
      → (i ≡ id → Keeps (x ∷ xs) c)
      → runs c (find (at i) (x ∷ xs)) ≡ true
      → runs c (find (at i) (y ∷ xs)) ≡ true
  found_head x y xs c i hit made same keeps r = elim (Bool-cases (x.id == i)) [
    | inr n ↦ let n' : (y.id == i) ≡ false = rw same n in rw n' (ground (arith, n, r))
    | inl t ↦
        let t' : (y.id == i) ≡ true = rw same t in
        let i_is : i ≡ id = ground (arith, t, hit) in
        let found : find (at id) (x ∷ xs) ≡ some x = rw hit refl in
        let r' : runs c (some x) ≡ true = ground (arith, t, r) in
        rw t' (keeps i_is x y found made r')
  ]

  found_tail :
      (x : Feed Sample) (xs ys : List (Feed Sample)) (c : String) (i : ℕ)
      → runs c (find (at i) (x ∷ xs)) ≡ true
      → (runs c (find (at i) xs) ≡ true → runs c (find (at i) ys) ≡ true)
      → runs c (find (at i) (x ∷ ys)) ≡ true
  found_tail x xs ys c i r later = ground (arith, r, later)

  change_first-After :
      (n : ℕ) (xs : List (Feed Sample))
      → MakesFound xs
      → all is_sound xs ≡ true
      → all (λ x. ltb x.id n) xs ≡ true
      → (ys : List (Feed Sample)) × (change_first (at id) f xs ≡ some ys) × After n xs ys
  unfolding change_first
  change_first-After n [] makes sound below = ([], refl, (refl, refl, λ c i k r. r))
  change_first-After n (x ∷ xs) makes sound below = elim (Bool-cases (x.id == id)) [
    | inl hit ↦
        let (y, made, s, same) = makes x (rw hit refl) (ground (arith, sound)) in
        let b : ltb y.id n ≡ true = rw same (ground (arith, below)) in
        (
          y ∷ xs,
          rw (hit, made) refl,
          (
            ground (arith, s, sound),
            ground (arith, b, below),
            λ c i. found_head x y xs c i hit made same,
          ),
        )
    | inr n_hit ↦
        let (ys, e, (s, b, later)) =
          change_first-After n xs (λ z found. makes z (rw n_hit found)) (ground (arith, sound))
            (ground (arith, below)) in
        (
          x ∷ ys,
          rw (n_hit, e) refl,
          (
            ground (arith, s, sound),
            ground (arith, b, below),
            λ c i keeps r.
                found_tail x xs ys c i r
                  (later c i (λ same z w found. keeps same z w (rw n_hit found))),
          ),
        )
  ]

  pub on_feed-IsSound :
      (h : Hub Sample)
      → all is_sound h.feeds ≡ true
      → all (λ x. ltb x.id h.next) h.feeds ≡ true
      → MakesFound h.feeds
      → ((c : String) (i : ℕ)
          → h.current c ≡ some i
          → (runs c (find (at i) h.feeds) ≡ true) × (i ≡ id → Keeps h.feeds c))
      → (h' : Hub Sample) × (on_feed id f h ≡ some h') × IsSound h'
  on_feed-IsSound h sound below makes maps =
      let (ys, e, (s, b, later)) = change_first-After h.next h.feeds makes sound below in
      let same : on_feed id f h ≡ some (record h { feeds = ys }) = rw e refl in
      (
        record h { feeds = ys },
        same,
        (s, λ c i m. let (r, keeps) = maps c i m in later c i keeps r, b),
      )

-- The feed keeps running through samples, and through viewers that come and go.
module _ {ℓ} {Sample : Type ℓ} (c : String) (x y : Feed Sample) where
  pub pump-runs : (m : Sample) → pump m x ≡ some y → runs c (some x) ≡ true → runs c (some y) ≡ true
  unfolding pump
  pump-runs m e r = elim (Option-cases (change_each (λ ch. ch.is_sub) (send m) x.channels)) [
    | inl n ↦ ground (arith, n, e, r)
    | inr (channels, k) ↦ ground (arith, k, e, r)
  ]

  pub leave_feed-runs :
      (timer channel : ℕ)
      → leave_feed timer channel x ≡ some y
      → runs c (some x) ≡ true
      → runs c (some y) ≡ true
  unfolding leave_feed
  leave_feed-runs timer channel e r =
      elim (Option-cases (change_each (λ ch. ch.id == channel && ch.is_sub) close x.channels)) [
        | inl n ↦ ground (arith, n, e, r)
        | inr (channels, k) ↦ ground (arith, k, e, r)
      ]

  pub join-runs :
      (channel : ℕ) → join channel x ≡ some y → runs c (some x) ≡ true → runs c (some y) ≡ true
  unfolding join
  join-runs channel e r = ground (arith, e, r)

  pub take-runs :
      (channel : ℕ)
      → set_channels x (change_each (λ ch. ch.id == channel) receive x.channels) ≡ some y
      → runs c (some x) ≡ true
      → runs c (some y) ≡ true
  take-runs channel e r =
      elim (Option-cases (change_each (λ ch. ch.id == channel) receive x.channels)) [
        | inl n ↦ ground (arith, n, e, r)
        | inr (channels, k) ↦ ground (arith, k, e, r)
      ]
