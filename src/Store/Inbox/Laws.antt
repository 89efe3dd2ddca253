-- ===== src/Store/Inbox/Laws.antt =====
-- Who hears of a notification may read it, and what is seen.
use mathlib.Core.List.{Memᴰ}
use boreas.Prelude.{
  ◌≡◌, refl, sym, ap, ◌∙◌, ◌↔◌, inl, inr, Bool, true, ◌&&◌, ◌||◌, some, List, [], ◌∷◌, ◌++◌, any,
  find, keep, ◌==◌, arith, Option-cases,
}
use boreas.Prelude.Find.{
  any-append, any_complete, find_sound, find-of_any, keep_sound, keep_complete,
}
use boreas.Core.Errors.{ok}
use boreas.Core.Model.{Uuid, User, Notification, is_admin}
use boreas.Store.Db.{Db}
use boreas.Store.Inbox.{
  Note, Seen, Subscription, Inbox, visible, is_shown, get, told, enabled_user, is_told, insert_seen,
  is_seen_by, mark_seen,
}

module _ (db : Db) (inbox : Inbox) where
  -- The id names one notification.
  abbrev pub IsStored : Note → Type 0
  IsStored n =
      Memᴰ n inbox.notes
      × ((m : Note) → Memᴰ m inbox.notes → m.id ≡ n.id → m ≡ n)
      × (any (λ p. p.id == n.note.project_id) db.projects ≡ true)

  abbrev picks : Uuid → Bool → Uuid → Note → Bool
  picks user_id admin id row = is_shown db user_id admin row && row.id == id

  get_sound :
      (n : Note) (user_id : Uuid) (admin : Bool) (id : Uuid)
      → get db user_id admin id inbox ≡ ok n
      → visible db user_id admin n.note ≡ true
  unfolding get
  get_sound n user_id admin id h = elim (Option-cases (find (picks user_id admin id) inbox.notes)) [
    | inl e ↦ ground (arith, e, h)
    | inr (m, e) ↦
        let (k, q) = find_sound (picks user_id admin id) inbox.notes m e in
        let same : m ≡ n = ground (arith, e, h) in rw (← same) ground (arith, q)
  ]

  get_complete :
      (n : Note) (user_id : Uuid) (admin : Bool)
      → IsStored n
      → visible db user_id admin n.note ≡ true
      → get db user_id admin n.id inbox ≡ ok n
  unfolding get
  get_complete n user_id admin (m, only, known) h =
      let p = picks user_id admin n.id in
      let q = any_complete p m (ground (arith, known, h)) in
      let (x, e) = find-of_any p inbox.notes q in
      let (k, shown) = find_sound p inbox.notes x e in
      let same = only x k (ground (arith, shown)) in
      let e' : find p inbox.notes ≡ some n = e ∙ ap some same in ground (arith, e')

  is_told-visible :
      (n : Notification) (s : Subscription) (u : User)
      → enabled_user db s.user_id ≡ some u
      → is_told db n s (enabled_user db s.user_id) ≡ visible db u.id (is_admin u) n
  unfolding visible
  is_told-visible n s u e =
      let (m, q) = find_sound _ db.users u e in
      let same : u.id ≡ s.user_id = ground (arith, q) in ground (arith, e, same)

  -- A device hears of a stored notification exactly if its user is enabled and could open the
  -- notification by its id.
  pub told-get :
      (n : Note) (s : Subscription)
      → IsStored n
      → Memᴰ s inbox.subscriptions
      → Memᴰ s (told db n.note inbox) ↔ (
          (u : User) × (enabled_user db s.user_id ≡ some u)
          × (get db u.id (is_admin u) n.id inbox ≡ ok n))
  unfolding told
  told-get n s stored m = (
    λ k. let (m', q) = keep_sound _ inbox.subscriptions k in opened q,
    λ (u, e, h).
        keep_complete _ m (is_told-visible n.note s u e ∙ get_sound n u.id (is_admin u) n.id h),
  )
    where
      opened :
          is_told db n.note s (enabled_user db s.user_id) ≡ true
          → (u : User) × (enabled_user db s.user_id ≡ some u)
            × (get db u.id (is_admin u) n.id inbox ≡ ok n)
      opened q = elim (Option-cases (enabled_user db s.user_id)) [
        | inl e ↦ ground (arith, e, q)
        | inr (u, e) ↦
            let v = sym (is_told-visible n.note s u e) ∙ q in
            (u, e, get_complete n u.id (is_admin u) stored v)
      ]

is_seen_by_same :
    (row_id id user_id other : Uuid) (seen : List Seen)
    → (user_id == other && row_id == id) ≡ true
    → any (is_seen_by id other) seen ≡ any (is_seen_by row_id user_id) seen
is_seen_by_same row_id id user_id other seen h =
    let a : row_id ≡ id = ground arith in let b : user_id ≡ other = ground arith in rw (a, b) refl

-- Who has seen what, after rows are inserted.
any-insert_seen :
    (user_id : Uuid) (rows : List Note) (seen : List Seen) (id other : Uuid)
    → any (is_seen_by id other) (insert_seen user_id rows seen)
      ≡ (any (is_seen_by id other) seen || (user_id == other && any (λ row. row.id == id) rows))
unfolding insert_seen
any-insert_seen user_id [] seen id other = ground arith
any-insert_seen user_id (row ∷ rows) seen id other =
    let mark : Seen = record { notification_id = row.id; user_id = user_id } in
    ground (
      arith,
      any-insert_seen user_id rows seen id other,
      any-insert_seen user_id rows (seen ++ mark ∷ []) id other,
      any-append (is_seen_by id other) seen (mark ∷ []),
      is_seen_by_same row.id id user_id other seen,
    )

-- After `MarkSeen`, a user has seen what was seen before; the caller has seen as well those of the
-- named notifications that the caller may read, and nobody has seen anything else.
pub mark_seen-seen :
    (db : Db) (user_id : Uuid) (admin : Bool) (ids : List Uuid) (inbox after : Inbox)
    → mark_seen db user_id admin ids inbox ≡ ok (tt, after)
    → (id other : Uuid)
    → any (is_seen_by id other) after.seen ≡ (
        any (is_seen_by id other) inbox.seen
        || (user_id == other
            && any
                (λ row. row.id == id)
                (keep
                  (λ row. any (λ i. i == row.id) ids && visible db user_id admin row.note)
                  inbox.notes)))
unfolding mark_seen
mark_seen-seen db user_id admin ids inbox after h id other =
    let rows =
      keep (λ row. any (λ i. i == row.id) ids && visible db user_id admin row.note) inbox.notes in
    let same : insert_seen user_id rows inbox.seen ≡ after.seen = ground (arith, h) in
    rw (← same) (any-insert_seen user_id rows inbox.seen id other)
