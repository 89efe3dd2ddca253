-- ===== src/Store/Inbox.antt =====
-- internal/infra/postgres/notifications.go and internal/infra/postgres/push.go: who may read a
-- notification, what was seen, and the devices that are told. The tables of both are a state of their
-- own beside `Db`, which their queries join. `LastDeploys` is left out.
pub mod Laws
use text.Mathlib.Text.{◌==◌ as text_eq}
use boreas.Prelude.{
  ℕ, zero, suc, String, Bool, true, false, not, ◌&&◌, ◌||◌, Option, none, some, List, [], ◌∷◌, ◌++◌,
  any, find, keep, change, map, ltb, ◌==◌, is_some, if◌then◌else◌,
}
use boreas.Core.Errors.{Err, Result, ok, err, err_not_found}
use boreas.Core.Model.{Uuid, Time, User, Notification, is_admin}
use boreas.Store.Db.{Db, one, key_violation}
use boreas.Store.Projects.{find_member}
use boreas.Store.Grants.{is_grant_on}

-- A row of the table: the notification with the id and the time that the database gave it.
pub record Note : Type 0 where
  pub id : Uuid
  pub created_at : Time
  pub note : Notification

pub record Seen : Type 0 where
  pub notification_id : Uuid
  pub user_id : Uuid

pub record Subscription : Type 0 where
  pub token : String
  pub user_id : Uuid

pub record Inbox : Type 0 where
  pub notes : List Note
  pub seen : List Seen
  pub subscriptions : List Subscription

-- `n.user_id = $1`
abbrev pub is_to : Uuid → Option Uuid → Bool
is_to user_id none = false
is_to user_id (some id) = id == user_id

-- A membership of the project, or a grant on the task of that name.
abbrev pub follows : Db → Uuid → Uuid → String → Bool
follows db user_id project_id task_name =
    is_some (find_member project_id user_id db)
    || any (is_grant_on project_id user_id task_name db.tasks) db.grants

-- `visible`
unfoldable pub visible : Db → Uuid → Bool → Notification → Bool
visible db user_id admin n =
    is_to user_id n.user_id
    || (not (is_some n.user_id) && (admin || follows db user_id n.project_id n.task_name))

-- The join with projects.
abbrev pub is_shown : Db → Uuid → Bool → Note → Bool
is_shown db user_id admin row =
    any (λ p. p.id == row.note.project_id) db.projects && visible db user_id admin row.note

-- (created_at, id) < (created_at, id) of the other row
abbrev pub is_older : Note → Note → Bool
is_older row other =
    ltb row.created_at other.created_at
    || (row.created_at == other.created_at && ltb row.id other.id)

-- Newest first.
unfoldable pub insert_note : Note → List Note → List Note
insert_note row [] = row ∷ []
insert_note row (n ∷ ns) =
    let rest = insert_note row ns in if is_older row n then n ∷ rest else row ∷ n ∷ ns

unfoldable pub sort_notes : List Note → List Note
unfolding insert_note
sort_notes [] = []
sort_notes (row ∷ rows) = insert_note row (sort_notes rows)

abbrev pub take : {A : Type 0} → ℕ → List A → List A
take zero xs = []
take (suc n) [] = []
take (suc n) (x ∷ xs) = x ∷ take n xs

abbrev pub in_project : Option Uuid → Note → Bool
in_project none row = true
in_project (some id) row = row.note.project_id == id

-- A `before` that names no row keeps none.
abbrev pub is_before : List Note → Option Uuid → Note → Bool
is_before rows none row = true
is_before rows (some id) row = elim (find (λ b. b.id == id) rows) [
  | none ↦ false
  | some b ↦ is_older row b
]

abbrev pub is_seen_by : Uuid → Uuid → Seen → Bool
is_seen_by id user_id s = s.notification_id == id && s.user_id == user_id

-- INSERT … ON CONFLICT DO NOTHING for each row of the select
unfoldable pub insert_seen : Uuid → List Note → List Seen → List Seen
insert_seen user_id [] seen = seen
insert_seen user_id (row ∷ rows) seen = insert_seen user_id rows (
    if any (is_seen_by row.id user_id) seen
    then seen
    else seen ++ record { notification_id = row.id; user_id = user_id } ∷ [])

unfoldable pub mark_unseen : Uuid → Uuid → Inbox → Result Err (Unit {0} × Inbox)
mark_unseen id user_id inbox =
    ok (tt, record inbox { seen = keep (λ s. not (is_seen_by id user_id s)) inbox.seen })

-- INSERT … ON CONFLICT (token) DO UPDATE SET user_id
abbrev pub claim : Uuid → String → List Subscription → List Subscription
claim user_id token rows =
    if any (λ s. text_eq s.token token) rows
    then change (λ s. text_eq s.token token) (λ s. record s { user_id = user_id }) rows
    else rows ++ record { token = token; user_id = user_id } ∷ []

unfoldable pub unsubscribe : Uuid → String → Inbox → Result Err (Unit {0} × Inbox)
unsubscribe user_id token inbox =
    let hit = λ (s : Subscription). text_eq s.token token && s.user_id == user_id in
    if any hit inbox.subscriptions
    then ok (tt, record inbox { subscriptions = keep (λ s. not (hit s)) inbox.subscriptions })
    else err err_not_found

unfoldable pub delete_tokens : List String → Inbox → Result Err (Unit {0} × Inbox)
delete_tokens tokens inbox = ok (
  tt,
  record inbox {
    subscriptions = keep (λ s. not (any (λ t. text_eq t s.token) tokens)) inbox.subscriptions;
  },
)

module _ (db : Db) where
  unfoldable pub list : Uuid → Bool → Option Uuid → Option Uuid → ℕ → Inbox → Result Err (List Note)
  unfolding visible sort_notes
  list user_id admin project_id before limit inbox = ok (
      take limit (
        sort_notes (
          keep
            (λ row.
              is_shown db user_id admin row
              && in_project project_id row
              && is_before inbox.notes before row)
            inbox.notes)))

  unfoldable pub get : Uuid → Bool → Uuid → Inbox → Result Err Note
  unfolding visible one
  get user_id admin id inbox =
      one (find (λ row. is_shown db user_id admin row && row.id == id) inbox.notes)

  -- created_at is the database's clock.
  unfoldable pub create : Uuid → Time → Notification → Inbox → Result Err (Note × Inbox)
  create fresh now n inbox =
      if any (λ p. p.id == n.project_id) db.projects
      then (let row : Note = record { id = fresh; created_at = now; note = n } in
          ok (row, record inbox { notes = inbox.notes ++ row ∷ [] }))
      else err (key_violation "create notification")

  unfoldable pub mark_seen : Uuid → Bool → List Uuid → Inbox → Result Err (Unit {0} × Inbox)
  unfolding visible insert_seen
  mark_seen user_id admin ids inbox =
      let rows =
        keep (λ row. any (λ id. id == row.id) ids && visible db user_id admin row.note)
          inbox.notes in
      ok (tt, record inbox { seen = insert_seen user_id rows inbox.seen })

  unfoldable pub subscribe : Uuid → String → Inbox → Result Err (Unit {0} × Inbox)
  subscribe user_id token inbox =
      if any (λ u. u.id == user_id) db.users
      then ok (tt, record inbox { subscriptions = claim user_id token inbox.subscriptions })
      else err (key_violation "create push subscription")

  -- `JOIN users u ON u.id = p.user_id AND u.disabled_at IS NULL`
  abbrev pub enabled_user : Uuid → Option User
  enabled_user user_id = find (λ u. u.id == user_id && not (is_some u.disabled_at)) db.users

  abbrev pub is_told : Notification → Subscription → Option User → Bool
  is_told n s none = false
  is_told n s (some u) =
      is_to s.user_id n.user_id
      || (not (is_some n.user_id) && (is_admin u || follows db s.user_id n.project_id n.task_name))

  -- The devices that hear of a notification.
  unfoldable pub told : Notification → Inbox → List Subscription
  told n inbox = keep (λ s. is_told n s (enabled_user s.user_id)) inbox.subscriptions

  unfoldable pub tokens : Notification → Inbox → Result Err (List String)
  unfolding told
  tokens n inbox = ok (map (λ s. s.token) (told n inbox))
