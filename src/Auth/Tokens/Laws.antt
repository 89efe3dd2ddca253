-- ===== src/Auth/Tokens/Laws.antt =====
-- Who a token lets in, and what ends its use.
use text.Mathlib.Text.{◌==◌ as text_eq}
use boreas.Prelude.{
  suc, ◌+◌, ◌≤◌, ◌<◌, String, ◌≡◌, inl, inr, Option-cases, Bool, true, false, ◌≢◌, none, some, List,
  [], ◌∷◌, find, change, arith, ◌==◌,
}
use boreas.Core.Enums.{TokenKind}
use boreas.Core.Errors.{ok}
use boreas.Core.Model.{Uuid, Time, User, AuthToken, disabled}
use boreas.Store.Tokens.{revoke_at}
use boreas.Store
use boreas.App.{Env, World}
use boreas.Auth.Tokens.{
  is_current, authenticate, logout, CreateApiTokenInput, create_api_token, max_api_token_ttl,
}

module _ (env : Env) (token : String) (w : World) where
  -- Whatever the database answers, `Authenticate` lets in only with a stored row of the token's hash
  -- that is not revoked, has begun and has not expired at the clock it reads, as the user whom the row names, who is not
  -- disabled, and with the row's kind.
  pub authenticate_sound :
      (user : User) (kind : TokenKind)
      → (authenticate env token w).0 ≡ ok (user, kind)
      → (t : AuthToken) × (find (λ t. text_eq t.token_hash (env.hash_token token)) w.db.tokens
          ≡ some t)
        × (is_current (env.now (suc w.tick)) t ≡ true)
        × (find (λ u. u.id == t.user_id) w.db.users ≡ some user)
        × (disabled user ≡ false)
        × (kind ≡ t.kind)
  unfolding authenticate Store.Tokens.get_by_hash Store.Users.get
  authenticate_sound user kind h =
      elim (Option-cases (find (λ t. text_eq t.token_hash (env.hash_token token)) w.db.tokens)) [
        | inl e ↦ ground (arith, e)
        | inr (t, e) ↦
            (t, e, ground (arith, e), ground (arith, e), ground (arith, e), ground (arith, e))
      ]

-- Revoking touches no row that does not hold the hash, and leaves none that holds it usable.
change-revoked :
    (p : AuthToken → Bool) (now clock : Time) (rows : List AuthToken) (t : AuthToken)
    → ((r : AuthToken) → p (revoke_at now r) ≡ p r)
    → find p (change p (revoke_at now) rows) ≡ some t
    → is_current clock t ≡ false
unfolding is_current
change-revoked p now clock [] t k h = cc
change-revoked p now clock (r ∷ rows) t k h =
    ground (arith, k r, change-revoked p now clock rows t k)

module _ (env : Env) (token : String) (w : World) where
  -- After a `Logout` that succeeds the token lets nobody in.
  pub logout-ends :
      (logout env token w).0 ≡ ok tt
      → (found : User × TokenKind) → (authenticate env token (logout env token w).1).0 ≢ ok found
  unfolding logout Store.Tokens.revoke
  logout-ends h (user, kind) k =
      let (t, e, c, _, _, _) = authenticate_sound env token (logout env token w).1 user kind k in
      ground (
        arith,
        change-revoked (λ t. text_eq t.token_hash (env.hash_token token)) (env.now w.tick)
            (env.now (suc (suc w.tick))) w.db.tokens t,
      )

  -- Whatever the database answers, a token that `CreateAPIToken` gives has a window that begins
  -- before it ends, ends after the clock, and spans at most 90 days; its row has the hash of the
  -- returned text and the user, and is not revoked.
  pub create_api_token-window :
      (user_id : Uuid) (input : CreateApiTokenInput) (raw : String) (t : AuthToken)
      → (create_api_token env user_id input w).0 ≡ ok (raw, t)
      → (t.valid_from < t.expires_at)
        × (t.expires_at ≤ t.valid_from + max_api_token_ttl)
        × (env.now w.tick < t.expires_at)
        × (t.token_hash ≡ env.hash_token raw)
        × (t.user_id ≡ user_id)
        × (t.revoked_at ≡ none)
  unfolding create_api_token Store.Tokens.create
  create_api_token-window user_id input raw t h =
      (ground arith, ground arith, ground arith, ground arith, ground arith, ground arith)
