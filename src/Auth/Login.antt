-- ===== src/Auth/Login.antt =====
-- `Login` and the pairing codes of internal/service/auth_service.go. A claimed code's channel is
-- left out: whoever watched it may hear the claim.
pub mod Laws
use text.Mathlib.Text.{◌==◌ as text_eq}
use boreas.Prelude.{
  ℕ, ◌+◌, ◌*◌, String, Bool, true, false, not, ◌&&◌, ◌||◌, Option, none, some, List, [], ◌∷◌, keep,
  find, ltb, ◌==◌, if◌then◌else◌,
}
use boreas.Prelude.Dict.{lookup}
use boreas.Core.Errors.{Err, Result, ok, err, require, err_unauthorized, err_not_found, wrap}
use boreas.Core.Model.{Uuid, Time, User, disabled}
use boreas.Store
use boreas.App.{Env, World, App, Pairing, query, ask, lift, pure, fail, attempt, read, ◌>>=◌, ◌>>◌}
use boreas.Auth.Tokens.{second, refuse_unknown, open_session}

abbrev pub pairing_ttl : Time
pairing_ttl = 120 * second

abbrev pub drop_code : String → List (String × Pairing) → List (String × Pairing)
drop_code hash pairings = keep (λ kv. not (text_eq kv.0 hash)) pairings

abbrev pub drop_expired : Time → List (String × Pairing) → List (String × Pairing)
drop_expired now pairings = keep (λ kv. not (ltb kv.1.expires now)) pairings

-- A code that is there and has not expired.
abbrev pub live_pairing : Time → Option Pairing → Result Err Pairing
live_pairing now none = err err_unauthorized
live_pairing now (some p) = if ltb p.expires now then err err_unauthorized else ok p

module _ (env : Env) where
  unfoldable pub login : String → String → App Err (String × User)
  unfolding query open_session
  login username password = do
    answer ← attempt (query env (Store.Users.get_by_username env.lower username))
    user ← lift (refuse_unknown "lookup user" answer)
    lift (require (not (disabled user)) err_unauthorized)
    lift (require (env.password_matches user.password_hash password) err_unauthorized)
    token ← open_session env user.id
    pure (token, user)

  abbrev pub set_pairings : List (String × Pairing) → App Err (Unit {0})
  set_pairings pairings w = (ok tt, record w { pairings = pairings })

  unfoldable pub start_pairing : User → App Err (String × Time)
  start_pairing user = do
    code ← ask env.random_text
    now ← ask env.now
    pairings ← read (λ w. w.pairings)
    let p : Pairing = record { user_id = user.id; expires = now + pairing_ttl; claimed = false }
    set_pairings
        ((env.hash_token code, p) ∷ drop_code (env.hash_token code) (drop_expired now pairings))
    pure (code, now + pairing_ttl)

  abbrev watched : User → Time → Option Pairing → Result Err Time
  watched user now none = err err_not_found
  watched user now (some p) =
      if not (p.user_id == user.id) || ltb p.expires now then err err_not_found else ok p.expires

  unfoldable pub watch_pairing : User → String → App Err Time
  unfolding lookup
  watch_pairing user code = do
    now ← ask env.now
    pairings ← read (λ w. w.pairings)
    lift (watched user now (lookup (env.hash_token code) pairings))

  -- The session of a claimed code.
  unfoldable pub claim_for : Pairing → App Err (String × User)
  unfolding query open_session
  claim_for p = do
    answer ← attempt (query env (Store.Users.get p.user_id))
    user ← lift (refuse_unknown "lookup pairing user" answer)
    lift (require (not (disabled user)) err_unauthorized)
    token ← open_session env user.id
    pure (token, user)

  -- The code is spent before anything else is looked at.
  unfoldable pub claim_pairing : String → App Err (String × User)
  unfolding lookup claim_for
  claim_pairing code = do
    pairings ← read (λ w. w.pairings)
    set_pairings (drop_code (env.hash_token code) pairings)
    now ← ask env.now
    p ← lift (live_pairing now (lookup (env.hash_token code) pairings))
    claim_for p
