-- ===== src/Auth/Tokens.antt =====
-- `getValidAccessToken` and the refresh of tokens.
use swkoo_kr.Prelude.{
  ℕ, ◌+◌, ◌*◌, Bool, false, Option, none, some, [], ◌∷◌, if◌then◌else◌, or_else, coalesce, ltb,
  Result, ok, err,
}
use swkoo_kr.Prelude.Texts.{Text}
use swkoo_kr.Accounts.Db.{Db}
use swkoo_kr.Accounts.Cipher.{Gcm}
use swkoo_kr.Accounts.Tokens.{TokenSet, get_tokens, save_tokens}

pub data AuthError : Type 0 where
  not_configured reauth_required exchange_failed request_failed refused_row : AuthError
  not_decrypted : Text → AuthError

-- `GithubTokenResponse`; an `access_token` that is empty is falsy.
pub record GithubTokenResponse : Type 0 where
  pub access_token : Option Text
  pub refresh_token : Option Text
  pub expires_in : Option ℕ  -- in seconds

-- `Date.prototype.toISOString` and `new Date(text).getTime()`, which is no number for some texts.
pub record Dates : Type 0 where
  pub iso : ℕ → Text
  pub time_of : Text → Option ℕ

abbrev pub eight_hours : ℕ
eight_hours = 8 * 60 * 60

abbrev pub expiry : ℕ → Option ℕ → ℕ
expiry now expires_in = now + or_else expires_in eight_hours * 1000

-- `computeExpiry`
abbrev pub compute_expiry : Dates → ℕ → Option ℕ → Text
compute_expiry dates now expires_in = dates.iso (expiry now expires_in)

abbrev pub refreshed_set :
    Dates → ℕ → Text → GithubTokenResponse → Option Text → Result AuthError TokenSet
refreshed_set dates now old r none = err AuthError.reauth_required
refreshed_set dates now old r (some []) = err AuthError.reauth_required
refreshed_set dates now old r (some (c ∷ t)) = ok (record {
  access_token = c ∷ t;
  refresh_token = coalesce r.refresh_token (some old);
  expires_at = compute_expiry dates now r.expires_in;
})

abbrev pub refresh_answer :
    Dates → ℕ → Text → Result AuthError GithubTokenResponse → Result AuthError TokenSet
refresh_answer dates now old (err e) = err e
refresh_answer dates now old (ok r) = refreshed_set dates now old r r.access_token

-- `refreshAccessToken`
unfoldable pub refresh_access_token :
    Dates
    → Bool
    → ℕ
    → (Text → Result AuthError GithubTokenResponse)
    → Text
    → Result AuthError TokenSet
refresh_access_token dates configured now ask old =
    if configured then refresh_answer dates now old (ask old) else err AuthError.not_configured

-- More than a minute is left.
abbrev pub is_valid_at : ℕ → Option ℕ → Bool
is_valid_at now none = false
is_valid_at now (some expires) = ltb (now + 60000) expires

module _ (gcm : Gcm) (dates : Dates) (configured : Bool) (now : ℕ)
    (ask : Text → Result AuthError GithubTokenResponse) where
  abbrev pub saved : ℕ → Db → Result AuthError TokenSet → Db × Result AuthError Text
  saved user_id db (ok tokens) = (save_tokens gcm user_id tokens db, ok tokens.access_token)
  saved user_id db (err e) = (db, err e)

  -- An empty refresh token is falsy.
  abbrev pub renewed : ℕ → Db → Option Text → Db × Result AuthError Text
  renewed user_id db none = (db, err AuthError.reauth_required)
  renewed user_id db (some []) = (db, err AuthError.reauth_required)
  renewed user_id db (some (c ∷ t)) =
      saved user_id db (refresh_access_token dates configured now ask (c ∷ t))

  abbrev pub token_of : ℕ → Db → TokenSet → Db × Result AuthError Text
  token_of user_id db tokens =
      if is_valid_at now (dates.time_of tokens.expires_at)
      then (db, ok tokens.access_token)
      else renewed user_id db tokens.refresh_token

  abbrev pub read_tokens : ℕ → Db → Result Text (Option TokenSet) → Db × Result AuthError Text
  read_tokens user_id db (err message) = (db, err (AuthError.not_decrypted message))
  read_tokens user_id db (ok none) = (db, err AuthError.reauth_required)
  read_tokens user_id db (ok (some tokens)) = token_of user_id db tokens

  -- `getValidAccessToken`
  unfoldable pub get_valid_access_token : ℕ → Db → Db × Result AuthError Text
  get_valid_access_token user_id db = read_tokens user_id db (get_tokens gcm user_id db)
