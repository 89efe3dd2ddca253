-- ===== src/Bora/Follow/Laws.antt =====
-- What a stream has sent, and that it misses no wake.
use mathlib.Core.Path.{subst}
use mathlib.Core.List.{append-nil, append_assoc}
use boreas.Prelude.{
  suc, ◌+◌, ◌≤◌, ◌<◌, ◌≡◌, refl, sym, ap, ◌∙◌, true, false, some, List, [], ◌∷◌, ◌++◌, length,
  arith, Option-cases, Bool-cases, inl, inr,
}
use boreas.Bora.Follow.{
  BoraEvent, Log, Follower, Stream, Phase, looking, sending, waiting, closed, left, Step, publishes,
  ends, runs, leaves, publish, end_turn, drop, look, advance, is_closed, run, leave, with_log,
  then_all, happens, happen, follow,
}

abbrev pub IsPrefix : List BoraEvent → List BoraEvent → Type 0
IsPrefix xs ys = (rest : List BoraEvent) × (ys ≡ xs ++ rest)

-- How far a stream is, by where its goroutine is.
abbrev pub Reached : Phase → Log → Follower → Type 0
Reached looking t f = (f.sent ≡ length f.out) × IsPrefix f.out t.events
Reached sending t f =
    (f.sent + f.size ≡ length (f.out ++ f.batch))
    × IsPrefix (f.out ++ f.batch) t.events
    × (f.wake ≤ t.wake)
    × (f.wake ≡ t.wake → (t.events ≡ f.out ++ f.batch) × (f.over ≡ t.over))
    × (f.over ≡ true → t.over ≡ true)
    × (f.over ≡ true → t.events ≡ f.out ++ f.batch)
Reached waiting t f =
    (f.sent ≡ length f.out)
    × IsPrefix f.out t.events
    × (f.wake ≤ t.wake)
    × (f.wake ≡ t.wake → (t.events ≡ f.out) × (t.over ≡ false))
Reached closed t f = (t.events ≡ f.out) × (t.over ≡ true)
Reached left t f = IsPrefix f.out t.events

abbrev pub IsOnTrack : Stream → Type 0
IsOnTrack s = Reached s.follower.phase s.log s.follower

length-append_lem : (xs ys : List BoraEvent) → length (xs ++ ys) ≡ length xs + length ys
length-append_lem [] ys = omega arith
length-append_lem (x ∷ xs) ys = omega (arith, length-append_lem xs ys)

drop-length : (xs ys : List BoraEvent) → drop (length xs) (xs ++ ys) ≡ ys
drop-length [] ys = refl
drop-length (x ∷ xs) ys = drop-length xs ys

pub look_on_track : (t : Log) (f : Follower) → Reached looking t f → Reached sending t (look t f)
unfolding look
look_on_track t f (at, before) =
    let tail : drop f.sent t.events ≡ before.0 = rw (at, before.1) (drop-length f.out before.0) in
    let whole : t.events ≡ f.out ++ drop f.sent t.events = rw tail before.1 in
    (
      rw (length-append_lem f.out (drop f.sent t.events)) (omega (arith, at)),
      ([], rw (append-nil (f.out ++ drop f.sent t.events)) whole),
      omega arith,
      λ _. (whole, refl),
      λ o. o,
      λ _. whole,
    )

-- The batch `b` as what is left to send of what was read.
abbrev pub Sending : List BoraEvent → Log → Follower → Type 0
Sending b t f =
    (f.sent + f.size ≡ length (f.out ++ b))
    × IsPrefix (f.out ++ b) t.events
    × (f.wake ≤ t.wake)
    × (f.wake ≡ t.wake → (t.events ≡ f.out ++ b) × (f.over ≡ t.over))
    × (f.over ≡ true → t.over ≡ true)
    × (f.over ≡ true → t.events ≡ f.out ++ b)

pub advance_on_track :
    (b : List BoraEvent) (t : Log) (f : Follower)
    → f.phase ≡ sending
    → Sending b t f
    → Reached (advance b f).phase t (advance b f)
advance_on_track [] t f p h =
    let sent = subst (λ xs. f.sent + f.size ≡ length xs) (append-nil f.out) h.0 in
    let before = subst (λ xs. IsPrefix xs t.events) (append-nil f.out) h.1 in
    elim (Bool-cases f.over) [
      | inl o ↦ rw o (h.5 o ∙ append-nil f.out, h.4 o)
      | inr o ↦ rw o (sent, before, h.2, λ w. ((h.3 w).0 ∙ append-nil f.out, sym (h.3 w).1 ∙ o))
    ]
advance_on_track (e ∷ es) t f p h =
    let q : f.out ++ e ∷ es ≡ (f.out ++ e ∷ []) ++ es = sym (append_assoc f.out (e ∷ []) es) in
    rw p (
      subst (λ xs. f.sent + f.size ≡ length xs) q h.0,
      subst (λ xs. IsPrefix xs t.events) q h.1,
      h.2,
      λ w. ((h.3 w).0 ∙ q, (h.3 w).1),
      h.4,
      λ o. h.5 o ∙ q,
    )

pub run_on_track :
    (p : Phase) (t : Log) (f : Follower)
    → f.phase ≡ p
    → Reached p t f
    → Reached (run p t f).phase t (run p t f)
unfolding look
run_on_track looking t f e h = look_on_track t f h
run_on_track sending t f e h = advance_on_track f.batch t f e h
run_on_track waiting t f e h = elim (Bool-cases (is_closed t f.wake)) [
  | inl c ↦ rw c (h.0, h.1)
  | inr c ↦ rw (c, e) h
]
run_on_track closed t f e h = rw e h
run_on_track left t f e h = rw e h

pub prefix_shorter : (xs ys zs : List BoraEvent) → IsPrefix (xs ++ ys) zs → IsPrefix xs zs
prefix_shorter xs ys zs (rest, e) = (ys ++ rest, e ∙ append_assoc xs ys rest)

leave_on_track :
    (p : Phase) (t : Log) (f : Follower)
    → f.phase ≡ p
    → Reached p t f
    → Reached (leave p f).phase t (leave p f)
leave_on_track looking t f e h = rw e h
leave_on_track sending t f e h = prefix_shorter f.out f.batch t.events h.1
leave_on_track waiting t f e h = h.1
leave_on_track closed t f e h = rw e h
leave_on_track left t f e h = rw e h

prefix_trans : (xs ys zs : List BoraEvent) → IsPrefix xs ys → IsPrefix ys zs → IsPrefix xs zs
prefix_trans xs ys zs (r, e) (q, d) = (r ++ q, d ∙ ap (λ l. l ++ q) e ∙ append_assoc xs r q)

-- A log that is not over grows, and its channel is closed.
grown :
    (p : Phase) (t u : Log) (f : Follower)
    → t.over ≡ false
    → IsPrefix t.events u.events
    → t.wake < u.wake
    → Reached p t f
    → Reached p u f
grown looking t u f o g w h = (h.0, prefix_trans f.out t.events u.events h.1 g)
grown sending t u f o g w h = (
  h.0,
  prefix_trans (f.out ++ f.batch) t.events u.events h.1 g,
  omega (arith, h.2, w),
  λ e. absurd (omega (arith, h.2, w, e)),
  λ x. cc (h.4 x, o),
  λ x. cc (h.4 x, o),
)
grown waiting t u f o g w h = (
  h.0,
  prefix_trans f.out t.events u.events h.1 g,
  omega (arith, h.2, w),
  λ e. absurd (omega (arith, h.2, w, e)),
)
grown closed t u f o g w h = cc (h.1, o)
grown left t u f o g w h = prefix_trans f.out t.events u.events h g

some_inj : {A : Type 0} {x y : A} → some x ≡ some y → x ≡ y
some_inj e = cc

publish_over : (e : BoraEvent) (t : Log) → t.over ≡ true → publish e t ≡ t
unfolding publish
publish_over e t o = ground arith

publish_open :
    (e : BoraEvent) (t : Log)
    → t.over ≡ false
    → publish e t ≡ record { events = t.events ++ e ∷ []; wake = suc t.wake; over = false }
unfolding publish
publish_open e t o = ground arith

publish_on_track :
    (e : BoraEvent) (t : Log) (f : Follower) → Reached f.phase t f → Reached f.phase (publish e t) f
publish_on_track e t f h = elim (Bool-cases t.over) [
  | inl o ↦ subst (λ u. Reached f.phase u f) (sym (publish_over e t o)) h
  | inr o ↦
      subst (λ u. Reached f.phase u f) (sym (publish_open e t o))
        (grown f.phase t (record { events = t.events ++ e ∷ []; wake = suc t.wake; over = false }) f
          o (e ∷ [], refl) (omega arith) h)
]

end_turn-some :
    (t u : Log)
    → end_turn t ≡ some u
    → (t.over ≡ false) × (u ≡ record t { wake = suc t.wake; over = true })
unfolding end_turn
end_turn-some t u h = ground arith

pub happens-IsOnTrack :
    (x : Step) (s s' : Stream) → IsOnTrack s → happens x s ≡ some s' → IsOnTrack s'
unfolding happens
happens-IsOnTrack (publishes e) s s' h k =
    subst IsOnTrack (some_inj k) (publish_on_track e s.log s.follower h)
happens-IsOnTrack ends s s' h k = elim (Option-cases (end_turn s.log)) [
  | inl e ↦ cc (subst (λ l. with_log s.follower l ≡ some s') e k)
  | inr (u, e) ↦
      let (o, same) = end_turn-some s.log u e in
      let ended : Log = record s.log { wake = suc s.log.wake; over = true } in
      subst IsOnTrack (some_inj (subst (λ l. with_log s.follower l ≡ some s') (e ∙ ap some same) k))
        (grown s.follower.phase s.log ended s.follower o ([], sym (append-nil s.log.events))
          (omega arith) h)
]
happens-IsOnTrack runs s s' h k =
    subst IsOnTrack (some_inj k) (run_on_track s.follower.phase s.log s.follower refl h)
happens-IsOnTrack leaves s s' h k =
    subst IsOnTrack (some_inj k) (leave_on_track s.follower.phase s.log s.follower refl h)

pub happen-IsOnTrack :
    (xs : List Step) (s s' : Stream) → IsOnTrack s → happen xs s ≡ some s' → IsOnTrack s'
unfolding happen
happen-IsOnTrack [] s s' h k = subst IsOnTrack (some_inj k) h
happen-IsOnTrack (x ∷ xs) s s' h k = elim (Option-cases (happens x s)) [
  | inl e ↦ cc (subst (λ o. then_all (happen xs) o ≡ some s') e k)
  | inr (next, e) ↦
      happen-IsOnTrack xs next s' (happens-IsOnTrack x s next h e)
        (subst (λ o. then_all (happen xs) o ≡ some s') e k)
]

pub follow-IsOnTrack : (t : Log) → IsOnTrack (follow t)
follow-IsOnTrack t = (refl, (t.events, refl))
