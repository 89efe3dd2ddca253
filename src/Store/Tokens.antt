-- ===== src/Store/Tokens.antt =====
-- internal/infra/postgres/tokens.go. `now` is the database's clock.
use text.Mathlib.Text.{◌==◌ as text_eq}
use boreas.Prelude.{
  String, Bool, true, false, ◌&&◌, ◌||◌, none, some, List, [], ◌∷◌, ◌++◌, any, find, keep, change,
  ◌==◌, if◌then◌else◌,
}
use boreas.Core.Enums.{TokenKind, session, api}
use boreas.Core.Errors.{Err, Result, ok, err}
use boreas.Core.Model.{Uuid, Time, AuthToken}
use boreas.Store.Db.{Db, one, update_rows, unique_violation, key_violation}

unfoldable pub create : Uuid → AuthToken → Db → Result Err (AuthToken × Db)
create fresh token db =
    let row = record token { id = fresh; revoked_at = none } in
    if any (λ t. t.id == fresh || text_eq t.token_hash token.token_hash) db.tokens
    then err (unique_violation "create token")
    else if any (λ u. u.id == token.user_id) db.users
    then ok (row, record db { tokens = db.tokens ++ row ∷ [] })
    else err (key_violation "create token")

abbrev pub is_api : TokenKind → Bool
is_api api = true
is_api session = false

unfoldable pub list_api_tokens : Uuid → Db → Result Err (List AuthToken)
list_api_tokens user_id db = ok (keep (λ t. t.user_id == user_id && is_api t.kind) db.tokens)

unfoldable pub get_by_hash : String → Db → Result Err AuthToken
unfolding one
get_by_hash hash db = one (find (λ t. text_eq t.token_hash hash) db.tokens)

-- COALESCE(revoked_at, now()): a revoked token keeps its time.
abbrev pub revoke_at : Time → AuthToken → AuthToken
revoke_at now t = record t { revoked_at = some (elim t.revoked_at [ none ↦ now | some at ↦ at ]) }

unfoldable pub revoke : Time → String → Db → Result Err (Unit {0} × Db)
revoke now hash db =
    ok
      (tt, record db { tokens = change (λ t. text_eq t.token_hash hash) (revoke_at now) db.tokens })

unfoldable pub revoke_by_id : Time → Uuid → Uuid → Db → Result Err (Unit {0} × Db)
unfolding update_rows
revoke_by_id now user_id token_id db =
    elim (update_rows (λ t. t.id == token_id && t.user_id == user_id && is_api t.kind)
      (revoke_at now) db.tokens) [ ok rows ↦ ok (tt, record db { tokens = rows }) | err e ↦ err e ]

unfoldable pub revoke_all_for_user : Time → Uuid → Db → Result Err (Unit {0} × Db)
revoke_all_for_user now user_id db =
    ok (tt, record db { tokens = change (λ t. t.user_id == user_id) (revoke_at now) db.tokens })
