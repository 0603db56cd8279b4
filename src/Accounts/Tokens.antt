-- ===== src/Accounts/Tokens.antt =====
-- `saveTokens` and `getTokens` of onboarding/users.repository.ts.
use swkoo_kr.Prelude.{ℕ, Option, none, some, ◌∷◌, ◌++◌, nat_eq, Result, ok, ◌>>=◌, find}
use swkoo_kr.Prelude.Texts.{Text, lit}
use swkoo_kr.Prelude.Integers.{decimal}
use swkoo_kr.Accounts.Db.{Db, Account}
use swkoo_kr.Accounts.Users.{update_users, of_id}
use swkoo_kr.Accounts.Cipher.{Gcm, encrypt, decrypt}

pub record TokenSet : Type 0 where
  pub access_token : Text
  pub refresh_token : Option Text
  pub expires_at : Text

-- The contexts `${userId}:access_token` and `${userId}:refresh_token`.
abbrev pub access_context : ℕ → Text
access_context user_id = decimal user_id ++ lit ":access_token"

abbrev pub refresh_context : ℕ → Text
refresh_context user_id = decimal user_id ++ lit ":refresh_token"

-- `tokens.refreshToken ? encrypt(…) : null`
abbrev pub encrypt_refresh : Gcm → ℕ → Option Text → Option Text
encrypt_refresh gcm user_id (some (c ∷ t)) = some (encrypt gcm (c ∷ t) (refresh_context user_id))
encrypt_refresh gcm user_id _ = none

abbrev pub set_tokens : Gcm → ℕ → TokenSet → Account → Account
set_tokens gcm user_id tokens a = record a {
  access_token = some (encrypt gcm tokens.access_token (access_context user_id));
  refresh_token = encrypt_refresh gcm user_id tokens.refresh_token;
  token_expires_at = some tokens.expires_at;
}

unfoldable pub save_tokens : Gcm → ℕ → TokenSet → Db → Db
unfolding encrypt
save_tokens gcm user_id tokens db = update_users (of_id user_id) (set_tokens gcm user_id tokens) db

abbrev pub decrypt_refresh : Gcm → ℕ → Option Text → Result Text (Option Text)
decrypt_refresh gcm user_id (some (c ∷ t)) = do
  refresh_token ← decrypt gcm (c ∷ t) (refresh_context user_id)
  ok (some refresh_token)
decrypt_refresh gcm user_id _ = ok none

abbrev pub decrypt_tokens : Gcm → ℕ → Text → Option Text → Text → Result Text (Option TokenSet)
decrypt_tokens gcm user_id access refresh expires_at = do
  access_token ← decrypt gcm access (access_context user_id)
  refresh_token ← decrypt_refresh gcm user_id refresh
  ok (
      some (record {
        access_token = access_token;
        refresh_token = refresh_token;
        expires_at = expires_at;
      }))

-- `!row?.accessToken || !row.expiresAt`
abbrev pub tokens_of :
    Gcm → ℕ → Option Text → Option Text → Option Text → Result Text (Option TokenSet)
tokens_of gcm user_id (some (c ∷ access)) refresh (some (d ∷ expires_at)) =
    decrypt_tokens gcm user_id (c ∷ access) refresh (d ∷ expires_at)
tokens_of gcm user_id _ refresh _ = ok none

abbrev pub tokens_in : Gcm → ℕ → Option Account → Result Text (Option TokenSet)
tokens_in gcm user_id none = ok none
tokens_in gcm user_id (some a) =
    tokens_of gcm user_id a.access_token a.refresh_token a.token_expires_at

-- An error is what `decrypt` throws.
unfoldable pub get_tokens : Gcm → ℕ → Db → Result Text (Option TokenSet)
unfolding decrypt
get_tokens gcm user_id db = tokens_in gcm user_id (find (of_id user_id) db.users)
