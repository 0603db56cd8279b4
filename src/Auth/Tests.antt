-- ===== src/Auth/Tests.antt =====
-- Sessions and tokens at concrete inputs: ann signs in and out, and her token is refreshed.
use swkoo_kr.Prelude.{
  ℕ, ◌+◌, ◌-◌, ◌≡◌, refl, true, Option, none, some, [], ◌∷◌, ◌++◌, map, arith, ◌==◌, nat_eq,
  if◌then◌else◌, ltb, coalesce, ok, err,
}
use swkoo_kr.Prelude.Texts.{Text, lit, text_eq, text_beq}
use swkoo_kr.Accounts.Db.{Db}
use swkoo_kr.Accounts.Users.{UserRow, hydrate, find_by_id}
use swkoo_kr.Accounts.Sessions.{seconds}
use swkoo_kr.Accounts.Tokens.{TokenSet, get_tokens, save_tokens}
use swkoo_kr.Accounts.Saved.{normal, get_tokens-save_tokens}
use swkoo_kr.Accounts.Tests.{run, toy, toy-IsCipher, busy, ann}
use swkoo_kr.Auth.Tokens.{
  AuthError, GithubTokenResponse, Dates, expiry, compute_expiry, get_valid_access_token, renewed,
}
use swkoo_kr.Auth.Session.{
  SessionPayload, Jwt, thirty_days, payload_of, sign_session_token, revoke, can_activate,
}
use swkoo_kr.Auth.Guarded.{IsJwt, sign_session_token-can_activate}
use swkoo_kr.Auth.Fresh.{AreDates, get_valid_access_token-again}

-- A token that holds its time and its payload in the clear.
abbrev parts : Text → Text × Text
parts [] = ([], [])
parts (x ∷ t) = let rest = parts t in if x == 0 then ([], t) else ((x - 1) ∷ rest.0, rest.1)

abbrev both : Text → Text → Text
both s t = map (λ x. x + 1) s ++ 0 ∷ t

parts-both : (s t : Text) → parts (both s t) ≡ (s, t)
parts-both [] t = refl
parts-both (x ∷ s) t = ground (arith, parts-both s t)

abbrev payload : ℕ → Text × Text → SessionPayload
payload uid (login, sid) = record { uid = uid; login = login; sid = sid }

abbrev read : ℕ → Text → Option SessionPayload
read later (now ∷ uid ∷ t) =
    if ltb (seconds later) (seconds now + thirty_days) then some (payload uid (parts t)) else none
read later _ = none

abbrev clear : Jwt
clear = record { sign = λ now p. now ∷ p.uid ∷ both p.login p.sid; verify = read }

clear-IsJwt : IsJwt clear
unfolding text_beq
clear-IsJwt = record {
  filled = λ now p. refl;
  verifies = λ now later p. rw (parts-both p.login p.sid) refl;
}

abbrev user : UserRow
user = hydrate ann

sign_session_token-can_activate_example :
    let out = sign_session_token clear true 3000 (lit "u") user busy in
    let token = clear.sign 3000 (payload_of clear true 3000 (lit "u") user) in
    (out.1 ≡ ok token)
    × (can_activate clear true 5000 (some token) out.0 ≡ (
        if ltb (seconds 5000) (seconds 3000 + thirty_days) then find_by_id user.id busy else none))
    × (can_activate clear true 5000 (some token) (revoke clear true 4000 token out.0) ≡ none)
unfolding run
sign_session_token-can_activate_example =
    sign_session_token-can_activate clear 3000 5000 4000 (lit "u") user busy clear-IsJwt refl
      (omega arith)

abbrev first_unit : Text → Option ℕ
first_unit [] = none
first_unit (t ∷ _) = some t

abbrev plain : Dates
plain = record { iso = λ t. t ∷ []; time_of = first_unit }

plain-AreDates : AreDates plain
unfolding text_beq
plain-AreDates = record { filled = λ t. refl; read_back = λ t. refl }

abbrev tokens : TokenSet
tokens = record {
  access_token = lit "ghu_x";
  refresh_token = some (lit "ghr_x");
  expires_at = 9000 ∷ [];
}

abbrev with_tokens : Db
with_tokens = save_tokens toy 1 tokens busy

abbrev renewal : GithubTokenResponse
renewal = record {
  access_token = some (lit "ghu_y");
  refresh_token = some (lit "ghr_y");
  expires_in = some 28800;
}

get_valid_access_token-again_example :
    let first = get_valid_access_token toy plain true 8000 (λ old. ok renewal) 1 with_tokens in
    (first.1 ≡ ok (lit "ghu_y"))
    × (get_tokens toy 1 first.0
        ≡ ok (
            some (record {
              access_token = lit "ghu_y";
              refresh_token = normal (coalesce renewal.refresh_token (some (lit "ghr_x")));
              expires_at = compute_expiry plain 8000 renewal.expires_in;
            })))
    × (get_valid_access_token toy plain true 9000 (λ old. err AuthError.request_failed) 1 first.0
        ≡ (if ltb (9000 + 60000) (expiry 8000 renewal.expires_in)
            then (first.0, ok (lit "ghu_y"))
            else renewed toy plain true 9000
                (λ old. err AuthError.request_failed)
                1
                first.0
                (normal (coalesce renewal.refresh_token (some (lit "ghr_x"))))))
unfolding run save_tokens
get_valid_access_token-again_example =
    get_valid_access_token-again toy plain 1 8000 9000 true (λ old. ok renewal)
      (λ old. err AuthError.request_failed) with_tokens _ tokens (lit "ghr_x") (lit "ghu_y") renewal
      toy-IsCipher plain-AreDates refl
      (get_tokens-save_tokens toy 1 tokens ann busy toy-IsCipher refl refl refl) refl refl refl refl
      refl refl
