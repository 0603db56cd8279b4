-- ===== src/Auth/Fresh.antt =====
-- `getValidAccessToken` after a refresh: the new token is used for as long as it lives.
use swkoo_kr.Prelude.{
  ℕ, ◌+◌, ◌≡◌, refl, ◌∙◌, Bool, true, false, some, [], ◌∷◌, ◌==◌, if◌then◌else◌, coalesce, find,
  ltb, Result, ok,
}
use swkoo_kr.Prelude.Texts.{Text, text_eq, text_beq}
use swkoo_kr.Accounts.Db.{Db, Account}
use swkoo_kr.Accounts.Users.{of_id}
use swkoo_kr.Accounts.Cipher.{Gcm}
use swkoo_kr.Accounts.Secrets.{IsCipher}
use swkoo_kr.Accounts.Tokens.{TokenSet, get_tokens, save_tokens}
use swkoo_kr.Accounts.Saved.{normal, get_tokens-save_tokens}
use swkoo_kr.Auth.Tokens.{
  AuthError, GithubTokenResponse, Dates, expiry, compute_expiry, refreshed_set,
  refresh_access_token, is_valid_at, saved, renewed, get_valid_access_token,
}

-- What a refresh with `old` saves.
abbrev pub renewed_set : Dates → ℕ → Text → Text → GithubTokenResponse → TokenSet
renewed_set dates now old token r = record {
  access_token = token;
  refresh_token = coalesce r.refresh_token (some old);
  expires_at = compute_expiry dates now r.expires_in;
}

refreshed_set-filled :
    (dates : Dates) (now : ℕ) (old token : Text) (r : GithubTokenResponse)
    → (token == []) ≡ false
    → refreshed_set dates now old r (some token) ≡ ok (renewed_set dates now old token r)
unfolding text_beq
refreshed_set-filled dates now old [] r filled = absurd (cc)
refreshed_set-filled dates now old (c ∷ t) r filled = refl

module _ (gcm : Gcm) (dates : Dates) (user_id : ℕ) where
  renewed-filled :
      (configured : Bool) (now : ℕ) (ask : Text → Result AuthError GithubTokenResponse) (db : Db)
      (old : Text)
      → (old == []) ≡ false
      → renewed gcm dates configured now ask user_id db (some old)
        ≡ saved gcm dates configured now ask user_id db
            (refresh_access_token dates configured now ask old)
  unfolding text_beq
  renewed-filled configured now ask db [] filled = absurd (cc)
  renewed-filled configured now ask db (c ∷ t) filled = refl

  refresh_access_token-answered :
      (now : ℕ) (ask : Text → Result AuthError GithubTokenResponse) (old token : Text)
      (r : GithubTokenResponse)
      → ask old ≡ ok r
      → r.access_token ≡ some token
      → (token == []) ≡ false
      → refresh_access_token dates true now ask old ≡ ok (renewed_set dates now old token r)
  unfolding refresh_access_token
  refresh_access_token-answered now ask old token r answer access filled =
      rw (answer, access) (refreshed_set-filled dates now old token r filled)

  -- A token that has a minute or less left is refreshed with the stored refresh token.
  get_valid_access_token-refreshed :
      (now : ℕ) (ask : Text → Result AuthError GithubTokenResponse) (db : Db) (tokens : TokenSet)
      (old token : Text) (r : GithubTokenResponse)
      → get_tokens gcm user_id db ≡ ok (some tokens)
      → is_valid_at now (dates.time_of tokens.expires_at) ≡ false
      → tokens.refresh_token ≡ some old
      → (old == []) ≡ false
      → ask old ≡ ok r
      → r.access_token ≡ some token
      → (token == []) ≡ false
      → get_valid_access_token gcm dates true now ask user_id db
        ≡ (save_tokens gcm user_id (renewed_set dates now old token r) db, ok token)
  unfolding get_valid_access_token
  get_valid_access_token-refreshed now ask db tokens old token r read over kept held answer access
        filled =
      rw (read, over, kept)
        (renewed-filled true now ask db old held
          ∙ rw (refresh_access_token-answered now ask old token r answer access filled) refl)

  -- After tokens are saved, with an expiry that is read back, they are used until a minute before it.
  get_valid_access_token-saved :
      (configured : Bool) (later expires : ℕ) (ask : Text → Result AuthError GithubTokenResponse)
      (db : Db) (a : Account) (tokens : TokenSet)
      → IsCipher gcm
      → find (of_id user_id) db.users ≡ some a
      → (tokens.access_token == []) ≡ false
      → (tokens.expires_at == []) ≡ false
      → dates.time_of tokens.expires_at ≡ some expires
      → get_valid_access_token gcm dates configured later ask user_id
          (save_tokens gcm user_id tokens db)
        ≡ (if ltb (later + 60000) expires
            then (save_tokens gcm user_id tokens db, ok tokens.access_token)
            else renewed gcm dates configured later ask user_id
                (save_tokens gcm user_id tokens db)
                (normal tokens.refresh_token))
  unfolding get_valid_access_token
  get_valid_access_token-saved configured later expires ask db a tokens h there filled dated read =
      rw (get_tokens-save_tokens gcm user_id tokens a db h there filled dated, read) refl

-- An ISO text is not empty, and is read as the time it was made of.
pub record AreDates (dates : Dates) : Type 0 where
  pub filled : (t : ℕ) → (dates.iso t == []) ≡ false
  pub read_back : (t : ℕ) → dates.time_of (dates.iso t) ≡ some t

-- Where the stored token has a minute or less left and GitHub answers the refresh with a token, that
-- token is answered and saved; until a minute before the expiry that GitHub gave it (eight hours
-- where it gave none) every later call answers it and changes nothing, and from then on a call
-- refreshes with the refresh token that GitHub gave last.
pub get_valid_access_token-again :
    (gcm : Gcm) (dates : Dates) (user_id now later : ℕ) (configured : Bool)
    (ask ask_later : Text → Result AuthError GithubTokenResponse) (db : Db) (a : Account)
    (tokens : TokenSet) (old token : Text) (r : GithubTokenResponse)
    → IsCipher gcm
    → AreDates dates
    → find (of_id user_id) db.users ≡ some a
    → get_tokens gcm user_id db ≡ ok (some tokens)
    → is_valid_at now (dates.time_of tokens.expires_at) ≡ false
    → tokens.refresh_token ≡ some old
    → (old == []) ≡ false
    → ask old ≡ ok r
    → r.access_token ≡ some token
    → (token == []) ≡ false
    → let first = get_valid_access_token gcm dates true now ask user_id db in
      (first.1 ≡ ok token)
      × (get_tokens gcm user_id first.0
          ≡ ok (
              some (record {
                access_token = token;
                refresh_token = normal (coalesce r.refresh_token (some old));
                expires_at = compute_expiry dates now r.expires_in;
              })))
      × (get_valid_access_token gcm dates configured later ask_later user_id first.0 ≡ (
          if ltb (later + 60000) (expiry now r.expires_in)
          then (first.0, ok token)
          else renewed gcm dates configured later ask_later user_id first.0
              (normal (coalesce r.refresh_token (some old)))))
get_valid_access_token-again gcm dates user_id now later configured ask ask_later db a tokens old
      token r h d there read over kept held answer access filled =
    let set = renewed_set dates now old token r in
    let dated = d.filled (expiry now r.expires_in) in
    rw
      (get_valid_access_token-refreshed gcm dates user_id now ask db tokens old token r read over
        kept held answer access filled)
      (
        refl,
        get_tokens-save_tokens gcm user_id set a db h there filled dated,
        get_valid_access_token-saved gcm dates user_id configured later (expiry now r.expires_in)
            ask_later db a set h there filled dated (d.read_back (expiry now r.expires_in)),
      )
