-- ===== src/Auth/Users.antt =====
-- The users of internal/service/auth_service.go. Avatars, files in an object store, are left out.
pub mod Laws
use Prim.Native.String.{len}
use boreas.Prelude.{
  ℕ, String, Bool, true, false, not, ◌&&◌, ◌||◌, Option, none, some, List, ltb, ◌==◌, is_some,
  if◌then◌else◌,
}
use boreas.Prelude.Text.{is_blank}
use boreas.Core.Enums.{UserRole, admin, is_known_role, or_user}
use boreas.Core.Errors.{Err, Result, ok, err, invalid, require, wrap}
use boreas.Core.Model.{Uuid, Time, User}
use boreas.Store
use boreas.App.{Env, App, query, exec, ask, ask_result, lift, pure, fail, wrapping, ◌>>=◌, ◌>>◌}

abbrev min_password_length : ℕ
min_password_length = 8

pub record CreateUserInput : Type 0 where
  pub username : String
  pub email : String
  pub password : String
  pub role : UserRole

-- `none` is a nil pointer: the field is not sent.
pub record UpdateUserInput : Type 0 where
  pub email : Option String
  pub password : Option String
  pub role : Option UserRole
  pub disabled : Option Bool

unfoldable pub check_new_user : CreateUserInput → Result Err (Unit {0})
unfolding or_user
check_new_user input =
    if is_blank input.username
    then err (invalid "username is required")
    else if is_blank input.email
    then err (invalid "email is required")
    else if ltb (len input.password) min_password_length
    then err (invalid "password must be at least 8 characters")
    else if is_known_role (or_user input.role)
    then ok tt
    else err (invalid "role must be admin or user")

abbrev pub new_user : CreateUserInput → String → User
new_user input hash = record {
  id = 0;
  username = input.username;
  email = input.email;
  password_hash = hash;
  role = or_user input.role;
  disabled_at = none;
}

abbrev pub with_email : Option String → User → Result Err User
with_email none u = ok u
with_email (some email) u =
    if is_blank email
    then err (invalid "email must not be empty")
    else ok (record u { email = email })

abbrev pub with_role : Option UserRole → User → Result Err User
with_role none u = ok u
with_role (some role) u =
    if is_known_role role
    then ok (record u { role = role })
    else err (invalid "role must be admin or user")

-- A user who is disabled already keeps the time.
abbrev pub with_disabled : Option Bool → Time → User → User
with_disabled none now u = u
with_disabled (some false) now u = record u { disabled_at = none }
with_disabled (some true) now u = record u {
  disabled_at = some (elim u.disabled_at [ none ↦ now | some at ↦ at ]);
}

abbrev disables : Option Bool → Bool
disables (some true) = true
disables _ = false

-- Whether access that was given before must end.
abbrev pub must_revoke : UpdateUserInput → Bool
must_revoke input = is_some input.password || is_some input.role || disables input.disabled

module _ (env : Env) where
  unfoldable pub list_users : App Err (List User)
  unfolding query
  list_users = wrapping "list users" (query env (λ db. ok db.users))

  unfoldable pub create_user : CreateUserInput → App Err User
  unfolding check_new_user exec
  create_user input = do
    lift (check_new_user input)
    hash ← wrapping "hash password" (ask_result (λ n. env.hash_password n input.password))
    wrapping "create user"
        (λ w. exec env (Store.Users.create env.lower (env.fresh w.tick) (new_user input hash)) w)

  unfoldable pub with_password : Option String → User → App Err User
  with_password none u = pure u
  with_password (some password) u =
      if ltb (len password) min_password_length
      then fail (invalid "password must be at least 8 characters")
      else (do
        hash ← wrapping "hash password" (ask_result (λ n. env.hash_password n password))
        pure (record u { password_hash = hash }))

  -- The write of a changed user, and the end of the access that it had.
  unfoldable pub store_user : UpdateUserInput → User → App Err User
  unfolding exec
  store_user input user = do
    updated ← wrapping "update user" (exec env (Store.Users.update env.lower user))
    if must_revoke input
        then wrapping "revoke user tokens"
            (λ w. exec env (Store.Tokens.revoke_all_for_user (env.now w.tick) updated.id) w)
        else pure tt
    pure updated

  unfoldable pub update_user : Uuid → UpdateUserInput → App Err User
  unfolding query with_password store_user
  update_user id input = do
    user ← wrapping "get user" (query env (Store.Users.get id))
    mailed ← lift (with_email input.email user)
    hashed ← with_password input.password mailed
    ranked ← lift (with_role input.role hashed)
    now ← ask env.now
    store_user input (with_disabled input.disabled now ranked)

  unfoldable pub delete_user : Uuid → App Err (Unit {0})
  unfolding exec
  delete_user id = wrapping "delete user" (exec env (Store.Users.delete id))

  unfoldable pub ensure_admin : String → String → String → App Err Bool
  unfolding query create_user
  ensure_admin username email password = do
    users ← wrapping "count users" (query env Store.Users.count)
    if ltb 0 users then pure false else (do
      create_user (record { username = username; email = email; password = password; role = admin })
      pure true)
