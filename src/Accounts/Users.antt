-- ===== src/Accounts/Users.antt =====
-- The statements of onboarding/users.repository.ts on the table `users`.
use swkoo_kr.Prelude.{
  ℕ, ◌+◌, Bool, true, false, not, ◌&&◌, ◌||◌, Option, none, some, List, [], ◌∷◌, ◌++◌,
  if◌then◌else◌, ◌==◌, nat_eq, Result, ok, err, is_some, any, find, keep, update_where, map, length,
}
use swkoo_kr.Prelude.Texts.{Text, text_eq, is_upper, to_lower}
use swkoo_kr.Prelude.Integers.{ℤ, pos, int_eq}
use swkoo_kr.Accounts.Db.{Db, Account, DbError, constraint_unique, AuditLogInsert}

pub record UserUpsert : Type 0 where
  pub github_id : ℕ
  pub github_login : Text
  pub name : Option Text
  pub email : Option Text
  pub avatar_url : Option Text

-- The columns that a reader gets.
pub record UserRow : Type 0 where
  pub id : ℕ
  pub github_id : ℤ
  pub github_login : Text
  pub name : Option Text
  pub email : Option Text
  pub avatar_url : Option Text
  pub created_at : ℕ
  pub last_login_at : ℕ
  pub is_allowed : Bool
  pub policy_version : Option Text
  pub subdomain : Option Text

abbrev pub hydrate : Account → UserRow
hydrate a = record {
  id = a.id;
  github_id = a.github_id;
  github_login = a.github_login;
  name = a.name;
  email = a.email;
  avatar_url = a.avatar_url;
  created_at = a.created_at;
  last_login_at = a.last_login_at;
  is_allowed = a.is_allowed;
  policy_version = a.policy_version;
  subdomain = a.subdomain;
}

-- The partial UNIQUE index ignores NULL.
abbrev pub same_claim : Option Text → Option Text → Bool
same_claim (some s) (some t) = s == t
same_claim _ _ = false

-- Two rows that a UNIQUE index keeps from standing in one table.
abbrev pub clash : Account → Account → Bool
clash a b =
    a.github_id == b.github_id
    || a.github_login == b.github_login
    || same_claim a.subdomain b.subdomain

unfoldable pub apart : List Account → Bool
apart [] = true
apart (a ∷ rows) = not (any (clash a) rows) && apart rows

-- A statement's rows, if the indexes accept them.
unfoldable pub store : List Account → Db → Result DbError Db
unfolding apart
store rows db = if apart rows then ok (record db { users = rows }) else err constraint_unique

abbrev pub of_id : ℕ → Account → Bool
of_id id a = a.id == id

abbrev pub of_github_id : ℤ → Account → Bool
of_github_id github_id a = a.github_id == github_id

-- `LOWER` of SQLite, which changes ASCII letters only
abbrev pub sql_lower : Text → Text
sql_lower s = map (λ c. if is_upper c then c + 32 else c) s

abbrev pub of_lower_login : Text → Account → Bool
of_lower_login login a = sql_lower a.github_login == to_lower login

abbrev pub is_live : Account → Bool
is_live a = not (is_some a.deleted_at)

-- `INSERT INTO users`, with the columns' defaults.
abbrev pub new_account : ℕ → ℕ → UserUpsert → Account
new_account now id u = record {
  id = id;
  github_id = pos u.github_id;
  github_login = u.github_login;
  name = u.name;
  email = u.email;
  avatar_url = u.avatar_url;
  created_at = now;
  last_login_at = now;
  access_token = none;
  refresh_token = none;
  token_expires_at = none;
  is_allowed = false;
  deleted_at = none;
  policy_version = none;
  policy_accepted_at = none;
  subdomain = none;
  last_notified_image_sha = none;
}

-- `DO UPDATE SET`
abbrev pub set_profile : ℕ → UserUpsert → Account → Account
set_profile now u a = record a {
  github_login = u.github_login;
  name = u.name;
  email = u.email;
  avatar_url = u.avatar_url;
  last_login_at = now;
}

unfoldable pub upsert_user : ℕ → UserUpsert → Db → Result DbError Db
unfolding store
upsert_user now u db =
    if any (of_github_id (pos u.github_id)) db.users
    then store (update_where (of_github_id (pos u.github_id)) (set_profile now u) db.users) db
    else store (db.users ++ new_account now db.next_user_id u ∷ [])
        (record db { next_user_id = db.next_user_id + 1 })

abbrev pub found : Option Account → Option UserRow
found none = none
found (some a) = some (hydrate a)

unfoldable pub find_by_id : ℕ → Db → Option UserRow
find_by_id id db = found (find (λ a. of_id id a && is_live a) db.users)

unfoldable pub find_by_login : Text → Db → Option UserRow
find_by_login login db = found (find (λ a. a.github_login == login && is_live a) db.users)

unfoldable pub find_by_github_id : ℤ → Db → Option UserRow
find_by_github_id github_id db = found (find (λ a. of_github_id github_id a && is_live a) db.users)

abbrev pub claims : Text → Account → Bool
claims subdomain a = same_claim a.subdomain (some subdomain)

unfoldable pub find_by_subdomain : Text → Db → Option UserRow
find_by_subdomain subdomain db = found (find (λ a. claims subdomain a && is_live a) db.users)

abbrev pub update_users : (Account → Bool) → (Account → Account) → Db → Db
update_users p f db = record db { users = update_where p f db.users }

unfoldable pub accept_policy : ℕ → ℕ → Text → Db → Db
accept_policy now user_id version db =
    update_users (of_id user_id)
      (λ a. record a { policy_version = some version; policy_accepted_at = some now }) db

-- The second result is `result.changes > 0`.
unfoldable pub set_allowed : Text → Bool → Db → Db × Bool
set_allowed login is_allowed db = (
  update_users (of_lower_login login) (λ a. record a { is_allowed = is_allowed }) db,
  any (of_lower_login login) db.users,
)

pub data SubdomainClaim : Type 0 where
  claim_ok taken no_user : SubdomainClaim

abbrev claimed : Bool → Db → Result DbError Db → Db × SubdomainClaim
claimed changes db (err constraint_unique) = (db, taken)
claimed true db (ok db') = (db', claim_ok)
claimed false db (ok db') = (db', no_user)

unfoldable pub set_subdomain : Text → Option Text → Db → Db × SubdomainClaim
unfolding store
set_subdomain login subdomain db = claimed (any (of_lower_login login) db.users) db (
    store (update_where (of_lower_login login) (λ a. record a { subdomain = subdomain }) db.users)
      db)

abbrev sha_of : Option Account → Option Text
sha_of none = none
sha_of (some a) = a.last_notified_image_sha

unfoldable pub get_last_notified_image_sha : ℕ → Db → Option Text
get_last_notified_image_sha user_id db = sha_of (find (of_id user_id) db.users)

unfoldable pub set_last_notified_image_sha : ℕ → Text → Db → Db
set_last_notified_image_sha user_id sha db =
    update_users (of_id user_id) (λ a. record a { last_notified_image_sha = some sha }) db

-- The rows that the seed turns on.
abbrev pub is_seeded : List Text → Account → Bool
is_seeded logins a = not a.is_allowed && any (λ l. sql_lower a.github_login == to_lower l) logins

unfoldable pub seed_allowlist : List Text → Db → Db × ℕ
seed_allowlist logins db = (
  update_users (is_seeded logins) (λ a. record a { is_allowed = true }) db,
  length (keep (is_seeded logins) db.users),
)

unfoldable pub audit : ℕ → AuditLogInsert → Db → Db
audit now entry db = record db {
  audit_log = db.audit_log ++ record { at = now; entry = entry } ∷ [];
}
