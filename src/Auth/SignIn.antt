-- ===== src/Auth/SignIn.antt =====
-- `exchangeCodeForUser`: the callback of GitHub's OAuth flow.
use swkoo_kr.Prelude.{
  ℕ, Bool, true, not, ◌&&◌, Option, none, some, List, [], ◌∷◌, ◌++◌, if◌then◌else◌, is_some,
  coalesce, any, find, Result, ok, err,
}
use swkoo_kr.Prelude.Texts.{Text, lit, text_eq, to_lower}
use swkoo_kr.Prelude.Base.{◌==◌}
use swkoo_kr.Prelude.Integers.{pos, decimal}
use swkoo_kr.Accounts.Db.{Db, DbError}
use swkoo_kr.Accounts.Users.{
  UserUpsert, UserRow, upsert_user, find_by_github_id, set_allowed, seed_allowlist, audit,
}
use swkoo_kr.Accounts.Cipher.{Gcm}
use swkoo_kr.Accounts.Tokens.{TokenSet, save_tokens}
use swkoo_kr.Auth.Tokens.{AuthError, GithubTokenResponse, Dates, compute_expiry}

pub record GithubUserResponse : Type 0 where
  pub id : ℕ
  pub login : Text
  pub name : Option Text
  pub email : Option Text
  pub avatar_url : Text

pub record GithubEmailResponse : Type 0 where
  pub email : Text
  pub primary : Bool
  pub verified : Bool

-- What GitHub answers on the code, and the configuration.
pub record Callback : Type 0 where
  pub now : ℕ
  pub configured : Bool
  pub exchange : Result AuthError GithubTokenResponse
  pub user : Result AuthError GithubUserResponse
  pub emails : List GithubEmailResponse  -- none where the request fails
  pub allowlist : List Text
  pub gcm : Gcm
  pub dates : Dates

-- The first address that is primary and verified, or the public one.
abbrev verified_email : List GithubEmailResponse → Option Text
verified_email emails = elim (find (λ (e : GithubEmailResponse). e.primary && e.verified) emails) [
  | none ↦ none
  | some e ↦ some e.email
]

abbrev pub upsert_of : Callback → GithubUserResponse → UserUpsert
upsert_of c gh = record {
  github_id = gh.id;
  github_login = gh.login;
  name = gh.name;
  email = coalesce (verified_email c.emails) gh.email;
  avatar_url = some gh.avatar_url;
}

-- The lazy seed of a user whom the environment lists.
abbrev pub is_listed : Callback → UserRow → Bool
is_listed c user = any (λ l. to_lower l == to_lower user.github_login) c.allowlist

abbrev pub seeded : Callback → UserRow → Db → Db × UserRow
seeded c user db =
    if not user.is_allowed && is_listed c user
    then ((set_allowed user.github_login true db).0, record user { is_allowed = true })
    else (db, user)

abbrev pub token_set : Callback → Text → GithubTokenResponse → TokenSet
token_set c access_token r = record {
  access_token = access_token;
  refresh_token = r.refresh_token;
  expires_at = compute_expiry c.dates c.now r.expires_in;
}

-- The user, and whether a notice of a new user is sent.
pub record SignedIn : Type 0 where
  pub user : UserRow
  pub is_new : Bool

abbrev pub finish_sign_in :
    Callback → GithubUserResponse → TokenSet → Bool → Db × UserRow → Db × Result AuthError SignedIn
finish_sign_in c gh tokens is_new (db, user) = (
  audit c.now
      (record {
        actor = gh.login;
        action = lit "SIGN_IN";
        target = none;
        reason = none;
        meta_json = some (lit "{\"githubId\":" ++ (decimal gh.id ++ lit "}"));
      })
      (save_tokens c.gcm user.id tokens db),
  ok (record { user = user; is_new = is_new }),
)

abbrev pub with_row :
    Callback
    → GithubUserResponse
    → TokenSet
    → Bool
    → Db
    → Option UserRow
    → Db × Result AuthError SignedIn
with_row c gh tokens is_new db none = (db, err AuthError.refused_row)
with_row c gh tokens is_new db (some user) = finish_sign_in c gh tokens is_new (seeded c user db)

-- The statement may be refused; the row is read back by its GitHub id.
abbrev pub upserted :
    Callback
    → GithubUserResponse
    → TokenSet
    → Bool
    → Db
    → Result DbError Db
    → Db × Result AuthError SignedIn
upserted c gh tokens is_new db (err e) = (db, err AuthError.refused_row)
upserted c gh tokens is_new db (ok db') =
    with_row c gh tokens is_new db' (find_by_github_id (pos gh.id) db')

abbrev pub with_user :
    Callback → TokenSet → Db → Result AuthError GithubUserResponse → Db × Result AuthError SignedIn
with_user c tokens db (err e) = (db, err e)
with_user c tokens db (ok gh) =
    upserted c gh tokens (not (is_some (find_by_github_id (pos gh.id) db))) db
      (upsert_user c.now (upsert_of c gh) db)

abbrev pub with_access :
    Callback → GithubTokenResponse → Db → Option Text → Db × Result AuthError SignedIn
with_access c r db none = (db, err AuthError.exchange_failed)
with_access c r db (some []) = (db, err AuthError.exchange_failed)
with_access c r db (some (d ∷ t)) = with_user c (token_set c (d ∷ t) r) db c.user

abbrev pub exchanged :
    Callback → Db → Result AuthError GithubTokenResponse → Db × Result AuthError SignedIn
exchanged c db (err e) = (db, err e)
exchanged c db (ok r) = with_access c r db r.access_token

-- `exchangeCodeForUser`
unfoldable pub exchange_code_for_user : Callback → Db → Db × Result AuthError SignedIn
exchange_code_for_user c db =
    if c.configured then exchanged c db c.exchange else (db, err AuthError.not_configured)

-- `onApplicationBootstrap`
abbrev pub on_application_bootstrap : List Text → Db → Db
on_application_bootstrap allowlist db = (seed_allowlist allowlist db).0
