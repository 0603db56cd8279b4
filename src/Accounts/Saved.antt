-- ===== src/Accounts/Saved.antt =====
-- The tokens of a user come back from the table as they were saved.
use swkoo_kr.Prelude.{
  ℕ, ◌≡◌, refl, ap, ◌∙◌, false, Option, none, some, List, [], ◌∷◌, arith, ◌==◌, nat_eq, inl, inr,
  Bool-cases, find, update_where, ok, ◌>>=◌,
}
use swkoo_kr.Prelude.Texts.{Text, lit, text_eq, text_beq, join}
use swkoo_kr.Accounts.Db.{Db, Account}
use swkoo_kr.Accounts.Users.{of_id}
use swkoo_kr.Accounts.Cipher.{Gcm, encrypt, decrypt}
use swkoo_kr.Accounts.Tokens.{
  TokenSet, save_tokens, get_tokens, set_tokens, tokens_of, tokens_in, decrypt_tokens,
  decrypt_refresh, encrypt_refresh, access_context, refresh_context,
}
use swkoo_kr.Accounts.Secrets.{IsCipher, decrypt-encrypt}

encrypt-filled : (gcm : Gcm) (v c : Text) → (encrypt gcm v c == []) ≡ false
unfolding encrypt join lit text_beq
encrypt-filled gcm v c = refl

tokens_of-filled :
    (gcm : Gcm) (user_id : ℕ) (access expires_at : Text) (refresh : Option Text)
    → (access == []) ≡ false
    → (expires_at == []) ≡ false
    → tokens_of gcm user_id (some access) refresh (some expires_at)
      ≡ decrypt_tokens gcm user_id access refresh expires_at
unfolding text_beq
tokens_of-filled gcm user_id [] x refresh h k = absurd (cc)
tokens_of-filled gcm user_id (c ∷ a) [] refresh h k = absurd (cc)
tokens_of-filled gcm user_id (c ∷ a) (d ∷ x) refresh h k = refl

-- An empty refresh token is saved as none.
abbrev pub normal : Option Text → Option Text
normal (some (c ∷ t)) = some (c ∷ t)
normal _ = none

refresh-filled :
    (gcm : Gcm) (user_id : ℕ) (t : Text)
    → (t == []) ≡ false
    → decrypt_refresh gcm user_id (some t)
      ≡ (decrypt gcm t (refresh_context user_id) >>= λ x. ok (some x))
unfolding text_beq
refresh-filled gcm user_id [] h = absurd (cc)
refresh-filled gcm user_id (c ∷ t) h = refl

decrypt_refresh-encrypt :
    (gcm : Gcm) (user_id : ℕ) (refresh : Option Text)
    → IsCipher gcm
    → decrypt_refresh gcm user_id (encrypt_refresh gcm user_id refresh) ≡ ok (normal refresh)
unfolding text_beq
decrypt_refresh-encrypt gcm user_id none h = refl
decrypt_refresh-encrypt gcm user_id (some []) h = refl
decrypt_refresh-encrypt gcm user_id (some (c ∷ t)) h =
    refresh-filled gcm user_id (encrypt gcm (c ∷ t) (refresh_context user_id))
      (encrypt-filled gcm (c ∷ t) (refresh_context user_id))
    ∙ ap (λ r. r >>= λ x. ok (some x))
        (decrypt-encrypt gcm (c ∷ t) (refresh_context user_id) h refl)

saved-found :
    (gcm : Gcm) (user_id : ℕ) (tokens : TokenSet) (a : Account) (rows : List Account)
    → find (of_id user_id) rows ≡ some a
    → find (of_id user_id) (update_where (of_id user_id) (set_tokens gcm user_id tokens) rows)
      ≡ some (set_tokens gcm user_id tokens a)
saved-found gcm user_id tokens a [] there = absurd (cc)
saved-found gcm user_id tokens a (r ∷ rows) there = elim (Bool-cases (of_id user_id r)) [
  | inl e ↦ let same : r ≡ a = ground arith in rw (e, e, same) refl
  | inr e ↦ rw (e, e) (saved-found gcm user_id tokens a rows (rw e at there))
]

-- After a user's tokens are saved, with an access token and an expiry that are not empty, they are
-- read as they were saved; an empty refresh token is read as none.
pub get_tokens-save_tokens :
    (gcm : Gcm) (user_id : ℕ) (tokens : TokenSet) (a : Account) (db : Db)
    → IsCipher gcm
    → find (of_id user_id) db.users ≡ some a
    → (tokens.access_token == []) ≡ false
    → (tokens.expires_at == []) ≡ false
    → get_tokens gcm user_id (save_tokens gcm user_id tokens db)
      ≡ ok (some (record tokens { refresh_token = normal tokens.refresh_token }))
unfolding get_tokens save_tokens
get_tokens-save_tokens gcm user_id tokens a db h there filled expires =
    ap (tokens_in gcm user_id) (saved-found gcm user_id tokens a db.users there)
    ∙ (tokens_of-filled gcm user_id (encrypt gcm tokens.access_token (access_context user_id))
          tokens.expires_at (encrypt_refresh gcm user_id tokens.refresh_token)
          (encrypt-filled gcm tokens.access_token (access_context user_id)) expires
        ∙ rw
            (
              decrypt-encrypt gcm tokens.access_token (access_context user_id) h filled,
              decrypt_refresh-encrypt gcm user_id tokens.refresh_token h,
            )
            refl)
