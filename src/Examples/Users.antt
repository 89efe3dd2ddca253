-- ===== src/Examples/Users.antt =====
-- Tokens, codes and users at concrete inputs.
use text.Mathlib.Text.{◌==◌ as text_eq}
use boreas.Prelude.{
  ℕ, ◌+◌, ◌*◌, ◌≤◌, ◌<◌, suc, String, ◌≡◌, ◌≢◌, refl, Bool, true, false, Option, none, some, List,
  [], ◌∷◌, all, find, length, arith, ◌==◌,
}
use boreas.Core.Enums.{session, api}
use boreas.Core.Errors.{ok, err, err_unauthorized}
use boreas.Core.Model.{User, AuthToken, disabled}
use boreas.Store
use boreas.App.{World}
use boreas.Auth.Tokens.{
  authenticate, is_current, logout, create_api_token, CreateApiTokenInput, max_api_token_ttl,
}
use boreas.Auth.Tokens.Laws.{authenticate_sound, logout-ends, create_api_token-window}
use boreas.Auth.Login.{claim_pairing, start_pairing}
use boreas.Auth.Login.Laws.{claim_pairing-once, claim_pairing-start_pairing, HasSession}
use boreas.Auth.Users.{UpdateUserInput, update_user}
use boreas.Auth.Users.Laws.{update_user-revokes, update_user-locks_out, all_revoked}
use boreas.Examples.Data.{quiet, world, ana, bo, db}

authenticate_sound_example :
    (t : AuthToken) × (find (λ t. text_eq t.token_hash "sha ana") db.tokens ≡ some t)
    × (is_current 1001 t ≡ true)
    × (find (λ u. u.id == t.user_id) db.users ≡ some ana)
    × (disabled ana ≡ false)
    × (session ≡ t.kind)
unfolding authenticate Store.Tokens.get_by_hash Store.Users.get boreas.Prelude.Text.trim_space
authenticate_sound_example = authenticate_sound quiet "ana" world ana session refl

logout-ends_example : (authenticate quiet "ana" (logout quiet "ana" world).1).0 ≢ ok (ana, session)
unfolding logout Store.Tokens.revoke
logout-ends_example = logout-ends quiet "ana" world refl (ana, session)

abbrev hour : CreateApiTokenInput
hour = record { name = "ci"; valid_from = 900; valid_to = 4500 }

abbrev hour_token : AuthToken
hour_token = record {
  id = 102;
  user_id = 1;
  name = "ci";
  kind = api;
  token_hash = "sha secret";
  valid_from = 900;
  expires_at = 4500;
  revoked_at = none;
}

create_api_token-window_example :
    (900 < 4500)
    × (4500 ≤ 900 + max_api_token_ttl)
    × (1000 < 4500)
    × (hour_token.token_hash ≡ "sha secret")
    × (hour_token.user_id ≡ 1)
    × (hour_token.revoked_at ≡ none)
unfolding create_api_token Store.Tokens.create boreas.Prelude.Text.trim_space
create_api_token-window_example =
    create_api_token-window quiet "" world 1 hour "secret" hour_token refl

abbrev paired : World
paired = record world {
  pairings = ("sha code", record { user_id = 1; expires = 1100; claimed = false }) ∷ [];
}

claim_pairing-once_example :
    (claim_pairing quiet "code" (claim_pairing quiet "code" paired).1).0 ≡ err err_unauthorized
claim_pairing-once_example = claim_pairing-once quiet "code" paired

abbrev pairing_started : World
pairing_started = (start_pairing quiet ana world).1

claim_pairing-start_pairing_example :
    ((120000001001) ≡ 1001 + 120 * 1000000000)
    × (1002 ≤ 120000001001)
    × HasSession quiet ana "secret" ana pairing_started
        (claim_pairing quiet "secret" pairing_started).1
unfolding start_pairing claim_pairing boreas.Store.Users.get boreas.Store.Tokens.create
claim_pairing-start_pairing_example =
    claim_pairing-start_pairing quiet ana world pairing_started "secret" 120000001001 "secret" ana
      refl refl refl

abbrev disable : UpdateUserInput
disable = record { email = none; password = none; role = none; disabled = some true }

abbrev disabled_ana : User
disabled_ana = record ana { disabled_at = some 1001 }

update_user-revokes_example : all_revoked 1 (update_user quiet 1 disable world).1.db.tokens ≡ true
unfolding update_user Store.Users.get Store.Users.update Store.Tokens.revoke_all_for_user
update_user-revokes_example = update_user-revokes quiet 1 disable world disabled_ana refl refl

update_user-locks_out_example : bo.id ≢ disabled_ana.id
unfolding update_user Store.Users.get Store.Users.update Store.Tokens.revoke_all_for_user
    authenticate Store.Tokens.get_by_hash boreas.Prelude.Text.trim_space
update_user-locks_out_example =
    update_user-locks_out quiet 1 disable world disabled_ana bo session "bo" refl refl refl
