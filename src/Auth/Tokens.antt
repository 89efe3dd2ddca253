-- ===== src/Auth/Tokens.antt =====
-- `Authenticate`, `Logout` and the API tokens of internal/service/auth_service.go. Times are
-- nanoseconds.
pub mod Laws
use Prim.Native.String.{count}
use boreas.Prelude.{
  ℕ, ◌+◌, ◌*◌, ◌-◌, String, Bool, true, false, not, ◌&&◌, ◌||◌, Option, none, some, List, ltb, leb,
  ◌==◌, is_some, if◌then◌else◌,
}
use boreas.Prelude.Text.{is_blank, is_empty, trim_space}
use boreas.Core.Enums.{TokenKind, session, api}
use boreas.Core.Errors.{
  Err, Result, ok, err, invalid, require, err_unauthorized, is_not_found, wrap,
}
use boreas.Core.Model.{Uuid, Time, User, AuthToken, disabled}
use boreas.Store
use boreas.App.{Env, App, query, exec, ask, lift, pure, fail, attempt, wrapping, ◌>>=◌, ◌>>◌}

abbrev pub second : Time
second = 1_000_000_000

abbrev pub token_ttl : Time
token_ttl = 30 * 24 * 3600 * second

abbrev pub max_api_token_ttl : Time
max_api_token_ttl = 90 * 24 * 3600 * second

-- ErrNotFound is no error of the caller's request: the credential is just not good.
abbrev pub unknown_is_unauthorized : String → Err → Err
unknown_is_unauthorized operation e =
    if is_not_found e.kind then err_unauthorized else wrap operation e

abbrev pub refuse_unknown {ℓ} : {A : Type ℓ} → String → Result Err A → Result Err A
refuse_unknown operation (ok a) = ok a
refuse_unknown operation (err e) = err (unknown_is_unauthorized operation e)

-- Not revoked, begun and not yet expired.
unfoldable pub is_current : Time → AuthToken → Bool
is_current now t = not (is_some t.revoked_at) && leb t.valid_from now && ltb now t.expires_at

abbrev pub token_row : Uuid → String → TokenKind → String → Time → Time → AuthToken
token_row user_id name kind hash valid_from expires_at = record {
  id = 0;
  user_id = user_id;
  name = name;
  kind = kind;
  token_hash = hash;
  valid_from = valid_from;
  expires_at = expires_at;
  revoked_at = none;
}

-- The zero time is 0.
pub record CreateApiTokenInput : Type 0 where
  pub name : String
  pub valid_from : Time
  pub valid_to : Time

module _ (env : Env) where
  unfoldable pub authenticate : String → App Err (User × TokenKind)
  unfolding query is_current
  authenticate token = if is_blank token then fail err_unauthorized else (do
    answer ← attempt (query env (Store.Tokens.get_by_hash (env.hash_token token)))
    stored ← lift (refuse_unknown "lookup token" answer)
    now ← ask env.now
    lift (require (is_current now stored) err_unauthorized)
    holder ← attempt (query env (Store.Users.get stored.user_id))
    user ← lift (refuse_unknown "lookup token user" holder)
    lift (require (not (disabled user)) err_unauthorized)
    pure (user, stored.kind))

  -- `now()` of the database is its clock at the statement.
  unfoldable pub logout : String → App Err (Unit {0})
  unfolding exec
  logout token =
      wrapping "revoke token"
        (λ w. exec env (Store.Tokens.revoke (env.now w.tick) (env.hash_token token)) w)

  -- A session token; its text is returned and only its hash is stored.
  unfoldable pub open_session : Uuid → App Err String
  unfolding exec
  open_session user_id = do
    token ← ask env.random_text
    now ← ask env.now
    wrapping "persist token" (λ w.
        exec env
          (Store.Tokens.create (env.fresh w.tick)
            (token_row user_id "" session (env.hash_token token) now (now + token_ttl)))
          w)
    pure token

  unfoldable pub check_api_token : CreateApiTokenInput → Time → Result Err (Unit {0})
  check_api_token input now =
      let name = trim_space input.name in
      if is_empty name || ltb 100 (count name)
      then err (invalid "token name must be between 1 and 100 characters")
      else if input.valid_from == 0 || input.valid_to == 0
      then err (invalid "valid_from and valid_to are required")
      else if not (ltb input.valid_from input.valid_to)
      then err (invalid "valid_from must be before valid_to")
      else if ltb max_api_token_ttl (input.valid_to - input.valid_from)
      then err (invalid "API token validity must not exceed 90 days")
      else if not (ltb now input.valid_to)
      then err (invalid "valid_to must be in the future")
      else ok tt

  unfoldable pub create_api_token : Uuid → CreateApiTokenInput → App Err (String × AuthToken)
  unfolding check_api_token exec
  create_api_token user_id input = do
    now ← ask env.now
    lift (check_api_token input now)
    raw ← ask env.random_text
    created ← wrapping "persist API token" (λ w.
        exec env
          (Store.Tokens.create (env.fresh w.tick) (
            token_row user_id (trim_space input.name) api (env.hash_token raw) input.valid_from
              input.valid_to))
          w)
    pure (raw, created)

  unfoldable pub list_api_tokens : Uuid → App Err (List AuthToken)
  unfolding query
  list_api_tokens user_id =
      wrapping "list API tokens" (query env (Store.Tokens.list_api_tokens user_id))

  unfoldable pub revoke_api_token : Uuid → Uuid → App Err (Unit {0})
  unfolding exec
  revoke_api_token user_id token_id =
      wrapping "revoke API token"
        (λ w. exec env (Store.Tokens.revoke_by_id (env.now w.tick) user_id token_id) w)
