-- ===== src/Auth/Users/Laws.antt =====
-- A change of a user's access ends the access that was given before.
use text.Mathlib.Text.{◌==◌ as text_eq}
use boreas.Prelude.{
  suc, ◌<◌, String, ◌≡◌, ◌≢◌, refl, Bool, true, not, ◌||◌, some, List, [], ◌∷◌, find, all, change,
  length, arith, ◌==◌, is_some,
}
use boreas.Prelude.Find.{find_sound}
use boreas.Core.Enums.{TokenKind}
use boreas.Core.Errors.{ok}
use boreas.Core.Model.{Uuid, Time, User, AuthToken}
use boreas.Store.Tokens.{revoke_at}
use boreas.Store
use boreas.App.{Env, World, wrapping, query, lift, ask}
use boreas.App.Laws.{bind_ends}
use boreas.Auth.Tokens.{authenticate, is_current}
use boreas.Auth.Tokens.Laws.{authenticate_sound}
use boreas.Auth.Users.{
  with_email, with_password, with_role, with_disabled, UpdateUserInput, must_revoke, store_user,
  update_user, ensure_admin,
}

-- Every token of the user is revoked.
abbrev pub all_revoked : Uuid → List AuthToken → Bool
all_revoked user_id tokens = all (λ t. not (t.user_id == user_id) || is_some t.revoked_at) tokens

all_revoked-change :
    (user_id : Uuid) (now : Time) (tokens : List AuthToken)
    → all_revoked user_id (change (λ t. t.user_id == user_id) (revoke_at now) tokens) ≡ true
all_revoked-change user_id now [] = refl
all_revoked-change user_id now (t ∷ tokens) = ground (arith, all_revoked-change user_id now tokens)

store_user-revokes :
    (env : Env) (input : UpdateUserInput) (user updated : User) (w : World)
    → must_revoke input ≡ true
    → (store_user env input user w).0 ≡ ok updated
    → (updated.id ≡ user.id)
      × (all_revoked user.id (store_user env input user w).1.db.tokens ≡ true)
unfolding store_user Store.Users.update Store.Tokens.revoke_all_for_user
store_user-revokes env input user updated w m h =
    (ground arith, ground (arith, all_revoked-change user.id (env.now (suc w.tick)) w.db.tokens))

update_ends :
    (env : Env) (input : UpdateUserInput) (user updated : User) (w : World)
    → must_revoke input ≡ true
    → (store_user env input user w).0 ≡ ok updated
    → all_revoked updated.id (store_user env input user w).1.db.tokens ≡ true
update_ends env input user updated w m h =
    let (same, all) = store_user-revokes env input user updated w m h in rw same all

find-revoked :
    (p : AuthToken → Bool) (user_id : Uuid) (tokens : List AuthToken) (t : AuthToken)
    → all_revoked user_id tokens ≡ true
    → find p tokens ≡ some t
    → t.user_id ≡ user_id
    → is_some t.revoked_at ≡ true
find-revoked p user_id [] t a h e = cc
find-revoked p user_id (r ∷ tokens) t a h e = ground (arith, find-revoked p user_id tokens t)

not_current : (now : Time) (t : AuthToken) → is_some t.revoked_at ≡ true → is_current now t ≢ true
unfolding is_current
not_current now t h k = ground arith

module _ (env : Env) (id : Uuid) (input : UpdateUserInput) (w : World) where
  -- A successful `UpdateUser` that sends a password or a role or disables the user leaves every
  -- token of the user revoked, whatever the database answered.
  pub update_user-revokes :
      (updated : User)
      → must_revoke input ≡ true
      → (update_user env id input w).0 ≡ ok updated
      → all_revoked updated.id (update_user env id input w).1.db.tokens ≡ true
  unfolding update_user
  update_user-revokes updated m h =
      let P : World → Type 0 = λ w'. all_revoked updated.id w'.db.tokens ≡ true in
      bind_ends P (wrapping "get user" (query env (Store.Users.get id))) _ w
        (λ user w1. bind_ends P (lift (with_email input.email user)) _ w1 λ mailed w2.
          bind_ends P (with_password env input.password mailed) _ w2 λ hashed w3.
            bind_ends P (lift (with_role input.role hashed)) _ w3 λ ranked w4.
              bind_ends P (ask env.now)
                (λ now. store_user env input (with_disabled input.disabled now ranked)) w4
                λ now w5.
                  update_ends env input (with_disabled input.disabled now ranked) updated w5 m)
        h

  -- Right after a successful `UpdateUser` that sends a password or a role or disables the user, no
  -- token authenticates as the user, whatever the database answers.
  pub update_user-locks_out :
      (updated user : User) (kind : TokenKind) (token : String)
      → must_revoke input ≡ true
      → (update_user env id input w).0 ≡ ok updated
      → (authenticate env token (update_user env id input w).1).0 ≡ ok (user, kind)
      → user.id ≢ updated.id
  update_user-locks_out updated user kind token m h k same =
      let w1 = (update_user env id input w).1 in
      let (t, e, c, f, _, _) = authenticate_sound env token w1 user kind k in
      let all = update_user-revokes updated m h in
      let owner = (find_sound (λ (u : User). u.id == t.user_id) w1.db.users user f).1 in
      let by : t.user_id ≡ updated.id = ground (arith, owner, same) in
      let revoked =
        find-revoked (λ (t : AuthToken). text_eq t.token_hash (env.hash_token token)) updated.id
          w1.db.tokens t all e by in
      not_current (env.now (suc w1.tick)) t revoked c

-- `EnsureAdmin` leaves tables that have a user alone, and where it makes an account there was none.
pub ensure_admin-once :
    (env : Env) (username email password : String) (w : World)
    → (0 < length w.db.users → (ensure_admin env username email password w).1.db ≡ w.db)
      × ((ensure_admin env username email password w).0 ≡ ok true → length w.db.users ≡ 0)
unfolding ensure_admin Store.Users.count
ensure_admin-once env username email password w = (ground arith, ground arith)
