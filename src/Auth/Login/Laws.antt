-- ===== src/Auth/Login/Laws.antt =====
-- A pairing code is used once.
use mathlib.Core.Path.{subst}
use mathlib.Core.List.{Memᴰ}
use text.Mathlib.TextPositions.{eq_refl}
use boreas.Prelude.{
  ◌+◌, ◌*◌, suc, ◌≤◌, String, ◌≡◌, refl, inl, inr, false, not, none, some, List, [], ◌∷◌, ◌++◌, ap,
  sym, find, arith, ◌==◌, Option-cases,
}
use boreas.Prelude.Find.{find_sound}
use boreas.Prelude.Dict.{lookup}
use boreas.Core.Enums.{session}
use boreas.Core.Errors.{Err, Result, ok, err, require, err_unauthorized}
use boreas.Core.Model.{Uuid, Time, User, AuthToken, disabled}
use boreas.Store
use boreas.App.{Env, App, World, Pairing, lift, attempt, query, exec, pure, ◌>>=◌}
use boreas.App.Laws.{bind_ends, bind-ok, bind_of_ok}
use boreas.Auth.Tokens.{open_session, token_row, token_ttl, refuse_unknown}
use boreas.Auth.Login.{pairing_ttl, start_pairing, claim_for, claim_pairing, drop_code}

lookup-drop_code :
    (hash : String) (pairings : List (String × Pairing))
    → lookup hash (drop_code hash pairings) ≡ none
unfolding lookup
lookup-drop_code hash [] = refl
lookup-drop_code hash ((h, p) ∷ pairings) = ground (arith, lookup-drop_code hash pairings)

module _ (env : Env) (code : String) (w : World) where
  claim_for_keeps : (p : Pairing) → (claim_for env p w).1.pairings ≡ w.pairings
  unfolding claim_for open_session
  claim_for_keeps p = ground arith

last_mem : {A : Type 0} (x : A) (xs : List A) → Memᴰ x (xs ++ x ∷ [])
last_mem x [] = Memᴰ.head refl
last_mem x (y ∷ xs) = Memᴰ.tail (last_mem x xs)

module _ (env : Env) where
  -- The stored session of a user.
  abbrev pub HasToken : Uuid → String → World → Type 0
  HasToken user_id token after =
      (row : AuthToken) × Memᴰ row after.db.tokens
      × (row.token_hash ≡ env.hash_token token)
      × (row.user_id ≡ user_id)
      × (row.kind ≡ session)
      × (row.revoked_at ≡ none)

module _ (env : Env) where
  open_session-HasToken :
      (user_id : Uuid) (token : String) (w : World)
      → (open_session env user_id w).0 ≡ ok token
      → HasToken env user_id token (open_session env user_id w).1
  unfolding open_session exec Store.Tokens.create
  open_session-HasToken user_id token w h =
      let text = env.random_text w.tick in
      let now = env.now (suc w.tick) in
      let row : AuthToken =
        record (token_row user_id "" session (env.hash_token text) now (now + token_ttl)) {
          id = env.fresh (suc (suc w.tick));
        } in
      let stored : (open_session env user_id w).1.db.tokens ≡ w.db.tokens ++ row ∷ [] =
        ground (arith, h) in
      let same : text ≡ token = ground (arith, h) in
      (row, rw stored (last_mem row w.db.tokens), ap env.hash_token same, refl, refl, refl)

  abbrev opened : User → App Err (String × User)
  opened user = open_session env user.id >>= λ text. pure (text, user)

  opened-HasToken :
      (user : User) (token : String) (who : User) (w : World)
      → (opened user w).0 ≡ ok (token, who)
      → HasToken env who.id token (opened user w).1
  opened-HasToken user token who w h =
      let give : String → App Err (String × User) = λ text. pure (text, user) in
      let (text, stored, rest) = bind-ok (open_session env user.id) give w h in
      let same_text : text ≡ token = ground (arith, rest) in
      let same_user : user ≡ who = ground (arith, rest) in
      let goes_on = bind_of_ok (open_session env user.id) give w text stored in
      rw (← same_text, ← same_user, goes_on) (open_session-HasToken user.id text w stored)

  claim_for-HasToken :
      (p : Pairing) (token : String) (who : User) (w : World)
      → (claim_for env p w).0 ≡ ok (token, who)
      → HasToken env who.id token (claim_for env p w).1
  unfolding claim_for
  claim_for-HasToken p token who w h =
      let P = HasToken env who.id token in
      let checked : User → App Err (String × User) =
        λ user. lift (require (not (disabled user)) err_unauthorized) >>= λ _. opened user in
      let known : Result Err User → App Err (String × User) =
        λ answer. lift (refuse_unknown "lookup pairing user" answer) >>= checked in
      bind_ends P (attempt (query env (Store.Users.get p.user_id))) known w
        (λ answer w1.
          bind_ends P (lift (refuse_unknown "lookup pairing user" answer)) checked w1 λ user w2.
            bind_ends P (lift (require (not (disabled user)) err_unauthorized)) (λ _. opened user)
              w2 λ _ w3. opened-HasToken user token who w3)
        h

module _ (env : Env) (code : String) (w : World) where
  claim_spends : (claim_pairing env code w).1.pairings ≡ drop_code (env.hash_token code) w.pairings
  unfolding claim_pairing
  claim_spends =
      let w1 : World = record w {
        pairings = drop_code (env.hash_token code) w.pairings;
        tick = suc w.tick;
      } in
      elim (Option-cases (lookup (env.hash_token code) w.pairings)) [
        | inl e ↦ ground (arith, e)
        | inr (p, e) ↦ ground (arith, e, claim_for_keeps env code w1 p)
      ]

  refused :
      (w' : World)
      → lookup (env.hash_token code) w'.pairings ≡ none
      → (claim_pairing env code w').0 ≡ err err_unauthorized
  unfolding claim_pairing
  refused w' e = ground (arith, e)

  -- Whether a claim of a code succeeds or not, and whatever the database answers, a claim of the
  -- same code right after it is refused as unauthorized.
  pub claim_pairing-once :
      (claim_pairing env code (claim_pairing env code w).1).0 ≡ err err_unauthorized
  claim_pairing-once =
      let w1 = (claim_pairing env code w).1 in
      refused w1 (rw claim_spends (lookup-drop_code (env.hash_token code) w.pairings))

  live_claim :
      (token : String) (who : User)
      → (claim_pairing env code w).0 ≡ ok (token, who)
      → (p : Pairing) × (lookup (env.hash_token code) w.pairings ≡ some p)
        × (env.now w.tick ≤ p.expires)
        × (find (λ u. u.id == p.user_id) w.db.users ≡ some who)
        × (disabled who ≡ false)
  unfolding claim_pairing claim_for Store.Users.get open_session
  live_claim token who h = elim (Option-cases (lookup (env.hash_token code) w.pairings)) [
    | inl e ↦ ground (arith, e)
    | inr (p, e) ↦ (p, e, ground (arith, e), ground (arith, e), ground (arith, e))
  ]

  claim-HasToken :
      (token : String) (who : User)
      → (claim_pairing env code w).0 ≡ ok (token, who)
      → HasToken env who.id token (claim_pairing env code w).1
  unfolding claim_pairing
  claim-HasToken token who h =
      let (p, found, live, who_is, enabled) = live_claim token who h in
      let w1 : World = record w {
        pairings = drop_code (env.hash_token code) w.pairings;
        tick = suc w.tick;
      } in
      let runs : claim_pairing env code w ≡ claim_for env p w1 = ground (arith, found, live) in
      rw runs (claim_for-HasToken env p token who w1 (rw (← runs) h))

module _ (env : Env) (user : User) where
  -- The claimer is the user, stored and not disabled, and holds a stored session under the token's hash.
  abbrev pub HasSession : String → User → World → World → Type 0
  HasSession token who before after =
      (who.id ≡ user.id)
      × Memᴰ who before.db.users
      × (disabled who ≡ false)
      × HasToken env user.id token after

  -- A code that `StartPairing` gave holds for two minutes, and a claim that finds its entry as the start
  -- left it, whatever else happened in between and whatever the database answers, succeeds only
  -- within them. It then gives the user who
  -- started the code, who is not disabled, and the table holds the session under the hash of the token.
  pub claim_pairing-start_pairing :
      (w w' : World) (code : String) (until : Time) (token : String) (who : User)
      → (start_pairing env user w).0 ≡ ok (code, until)
      → lookup (env.hash_token code) w'.pairings
        ≡ lookup (env.hash_token code) (start_pairing env user w).1.pairings
      → (claim_pairing env code w').0 ≡ ok (token, who)
      → (until ≡ env.now (suc w.tick) + 120 * 1000000000)
        × (env.now w'.tick ≤ until)
        × HasSession token who w' (claim_pairing env code w').1
  unfolding start_pairing lookup
  claim_pairing-start_pairing w w' code until token who started same claimed =
      let (p, found, live, who_is, enabled) = live_claim env code w' token who claimed in
      let made : Pairing = record {
        user_id = user.id;
        expires = env.now (suc w.tick) + pairing_ttl;
        claimed = false;
      } in
      let code_is : env.random_text w.tick ≡ code = ground (arith, started) in
      let until_is : env.now (suc w.tick) + 120 * 1000000000 ≡ until = ground (arith, started) in
      let stored : lookup (env.hash_token code) (start_pairing env user w).1.pairings ≡ some made =
        ground (arith, code_is, eq_refl (env.hash_token code)) in
      let is_made : p ≡ made = ground (arith, found, same, stored) in
      let (among, id_is) = find_sound _ w'.db.users who who_is in
      let same_user : who.id ≡ user.id = ground (arith, id_is, is_made) in
      (
        sym until_is,
        ground (arith, live, is_made, until_is),
        (
          same_user,
          among,
          enabled,
          subst (λ i. HasToken env i token (claim_pairing env code w').1) same_user
              (claim-HasToken env code w' token who claimed),
        ),
      )
