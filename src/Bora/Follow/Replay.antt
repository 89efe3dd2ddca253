-- ===== src/Bora/Follow/Replay.antt =====
-- What a reader gets of a turn: its events, in order, and all of them in the end.
use mathlib.Core.Path.{subst}
use mathlib.Core.List.{append-nil}
use boreas.Prelude.{
  ℕ, zero, suc, ◌+◌, ◌≡◌, ◌≢◌, refl, sym, ◌∙◌, true, false, some, List, [], ◌∷◌, arith, Bool-cases,
  if◌then◌else◌, inl, inr,
}
use boreas.Bora.Follow.{
  BoraEvent, Log, Follower, Stream, Phase, looking, sending, waiting, closed, left, Step, look,
  advance, is_closed, run, happen, follow,
}
use boreas.Bora.Follow.Laws.{
  IsPrefix, Reached, IsOnTrack, Sending, happen-IsOnTrack, follow-IsOnTrack, advance_on_track,
  look_on_track, prefix_shorter,
}

Reached-prefix : (p : Phase) (t : Log) (f : Follower) → Reached p t f → IsPrefix f.out t.events
Reached-prefix looking t f h = h.1
Reached-prefix sending t f h = prefix_shorter f.out f.batch t.events h.1
Reached-prefix waiting t f h = h.1
Reached-prefix closed t f h = ([], h.0 ∙ sym (append-nil f.out))
Reached-prefix left t f h = h

-- What a stream has sent, wherever it is.
abbrev pub IsReplay : Stream → Type 0
IsReplay s =
    IsPrefix s.follower.out s.log.events
    × (s.follower.phase ≡ closed → (s.log.events ≡ s.follower.out) × (s.log.over ≡ true))
    × (s.follower.phase ≡ waiting
        → is_closed s.log s.follower.wake ≡ false
        → (s.log.events ≡ s.follower.out) × (s.log.over ≡ false))

-- However the events of a turn, its end, the stream's own steps and the reader's leaving interleave, a
-- stream that follows the turn from any point has sent the turn's events from its first, in order and
-- without a gap; when it closes, it has sent them all and the turn is over; and while it waits with no
-- wake to take, it has sent all that there are and the turn is not over.
pub follow_sound :
    (t : Log) (xs : List Step) (s : Stream) → happen xs (follow t) ≡ some s → IsReplay s
follow_sound t xs s h =
    let at : IsOnTrack s = happen-IsOnTrack xs (follow t) s (follow-IsOnTrack t) h in
    (
      Reached-prefix s.follower.phase s.log s.follower at,
      λ e. subst (λ p. Reached p s.log s.follower) e at,
      λ e w.
          let wait : Reached waiting s.log s.follower =
            subst (λ p. Reached p s.log s.follower) e at in
          wait.3 (ground (arith, wait.2, w)),
    )

-- The stream's own steps, while the turn stays as it is.
unfoldable pub goes : ℕ → Log → Follower → Follower
unfolding look
goes zero t f = f
goes (suc n) t f = goes n t (run f.phase t f)

abbrev pub Closes : Log → Follower → Type 0
Closes t f = (n : ℕ) × ((goes n t f).phase ≡ closed) × ((goes n t f).out ≡ t.events)

one_more : (t : Log) (f : Follower) → Closes t (run f.phase t f) → Closes t f
unfolding goes
one_more t f (n, p, e) = (suc n, p, e)

-- A follower that has sent its batch, and waits.
abbrev rest_of : Follower → Follower
rest_of f = record f { phase = waiting; sent = f.sent + f.size }

sent_next :
    (t : Log) (f : Follower) (b : List BoraEvent)
    → f.phase ≡ sending
    → f.batch ≡ b
    → Closes t (advance b f)
    → Closes t (run f.phase t f)
sent_next t f b p q h =
    subst (λ ph. Closes t (run ph t f)) (sym p) (subst (λ c. Closes t (advance c f)) (sym q) h)

module _ (t : Log) (ended : t.over ≡ true) where
  -- A batch that was read when the turn was over is the last.
  last_batch :
      (b : List BoraEvent) (f : Follower)
      → f.phase ≡ sending
      → f.batch ≡ b
      → f.over ≡ true
      → Sending b t f
      → Closes t f
  unfolding goes
  last_batch [] f p q o h = one_more t f (
      sent_next t f [] p q (
        subst (λ v. Closes t (if v then record f { phase = closed } else rest_of f)) (sym o)
          (0, refl, sym (h.5 o ∙ append-nil f.out))))
  last_batch (e ∷ es) f p q o h = one_more t f (
      sent_next t f (e ∷ es) p q (
        last_batch es (advance (e ∷ es) f) p refl o
          (subst (λ ph. Reached ph t (advance (e ∷ es) f)) p (advance_on_track (e ∷ es) t f p h))))

  from_look : (f : Follower) → f.phase ≡ looking → Reached looking t f → Closes t f
  unfolding look
  from_look f p h = one_more t f (
      subst (λ ph. Closes t (run ph t f)) (sym p)
        (last_batch (look t f).batch (look t f) refl refl ended (look_on_track t f h)))

  from_wait : (f : Follower) → f.phase ≡ waiting → Reached waiting t f → Closes t f
  from_wait f p h =
      let woken : is_closed t f.wake ≡ true = ground (arith, h.2, h.3, ended) in
      one_more t f (
        subst (λ ph. Closes t (run ph t f)) (sym p)
          (subst (λ v. Closes t (if v then record f { phase = looking } else f)) (sym woken)
            (from_look (record f { phase = looking }) refl (h.0, h.1))))

  any_batch :
      (b : List BoraEvent) (f : Follower)
      → f.phase ≡ sending
      → f.batch ≡ b
      → f.over ≡ false
      → Sending b t f
      → Closes t f
  any_batch [] f p q o h = one_more t f (
      sent_next t f [] p q (
        subst (λ v. Closes t (if v then record f { phase = closed } else rest_of f)) (sym o)
          (from_wait (rest_of f) refl (
            subst
              (λ v.
                Reached (if v then record f { phase = closed } else rest_of f).phase t
                  (if v then record f { phase = closed } else rest_of f))
              o (advance_on_track [] t f p h)))))
  any_batch (e ∷ es) f p q o h = one_more t f (
      sent_next t f (e ∷ es) p q (
        any_batch es (advance (e ∷ es) f) p refl o
          (subst (λ ph. Reached ph t (advance (e ∷ es) f)) p (advance_on_track (e ∷ es) t f p h))))

  Closes-from : (p : Phase) (f : Follower) → f.phase ≡ p → p ≢ left → Reached p t f → Closes t f
  unfolding goes
  Closes-from looking f e n h = from_look f e h
  Closes-from sending f e n h = elim (Bool-cases f.over) [
    | inl o ↦ last_batch f.batch f e refl o h
    | inr o ↦ any_batch f.batch f e refl o h
  ]
  Closes-from waiting f e n h = from_wait f e h
  Closes-from closed f e n h = (0, e, sym h.0)
  Closes-from left f e n h = absurd (n refl)

-- Once the turn is over, a stream whose reader stays closes after finitely many of its own steps,
-- wherever it was, and its reader has every event of the turn: no wake is missed.
pub follow-Closes :
    (t : Log) (xs : List Step) (s : Stream)
    → happen xs (follow t) ≡ some s
    → s.log.over ≡ true
    → s.follower.phase ≢ left
    → Closes s.log s.follower
follow-Closes t xs s h over stays =
    Closes-from s.log over s.follower.phase s.follower refl stays
      (happen-IsOnTrack xs (follow t) s (follow-IsOnTrack t) h)
