-- ===== src/Accounts/Steps.antt =====
-- Each operation on the table `users` keeps it.
use swkoo_kr.Prelude.{
  ℕ, ◌≤◌, ◌≡◌, refl, sym, ap, ap₂, ◌∙◌, Bool, true, ◌||◌, Option, none, some, List, ◌==◌, inl, inr,
  Bool-cases, update_where, subst,
}
use swkoo_kr.Prelude.Rows.{step}
use swkoo_kr.Prelude.Texts.{Text, text_eq}
use swkoo_kr.Prelude.Integers.{ℤ, pos, negate, int_eq}
use swkoo_kr.Accounts.Db.{Db, Account, NotificationState, sent, pending, expired}
use swkoo_kr.Accounts.Users.{
  clash, of_id, of_lower_login, is_seeded, accept_policy, set_allowed, set_last_notified_image_sha,
  seed_allowlist, same_claim,
}
use swkoo_kr.Accounts.Notifications.{finish_deploy_notification}
use swkoo_kr.Accounts.Tokens.{TokenSet, save_tokens, set_tokens}
use swkoo_kr.Accounts.Cipher.{Gcm}
use swkoo_kr.Accounts.Erasure.{placeholder}
use swkoo_kr.Accounts.Unique.{AreAccounts, IsAccount, Shape, apart-update, update-AreAccounts}

-- What the indexes and the invariant read of a row.
record Face : Type 0 where
  id : ℕ
  github_id : ℤ
  github_login : Text
  subdomain : Option Text
  deleted_at : Option ℕ
  name : Option Text
  email : Option Text
  avatar_url : Option Text

abbrev face : Account → Face
face a = record {
  id = a.id;
  github_id = a.github_id;
  github_login = a.github_login;
  subdomain = a.subdomain;
  deleted_at = a.deleted_at;
  name = a.name;
  email = a.email;
  avatar_url = a.avatar_url;
}

face-step :
    (p : Account → Bool) (f : Account → Account)
    → ((a : Account) → face (f a) ≡ face a)
    → (a : Account) → face (step p f a) ≡ face a
face-step p f same a = elim (Bool-cases (p a)) [ inl e ↦ rw e (same a) | inr e ↦ rw e refl ]

abbrev face_clash : Face → Face → Bool
face_clash a b =
    a.github_id == b.github_id
    || a.github_login == b.github_login
    || same_claim a.subdomain b.subdomain

clash-face : (a b c d : Account) → face a ≡ face c → face b ≡ face d → clash a b ≡ clash c d
clash-face a b c d h k = ap₂ face_clash h k

abbrev FaceShape : Option ℕ → Face → Type 0
FaceShape none a = (n : ℕ) × (a.github_id ≡ pos n)
FaceShape (some at) a =
    (a.github_id ≡ negate a.id)
    × (a.github_login ≡ placeholder a.id)
    × (a.name ≡ none)
    × (a.email ≡ none)
    × (a.avatar_url ≡ none)

Shape-face : (d : Option ℕ) (a : Account) → Shape d a → FaceShape d (face a)
Shape-face none a k = k
Shape-face (some at) a k = k

face-Shape : (d : Option ℕ) (a : Account) → FaceShape d (face a) → Shape d a
face-Shape none a k = k
face-Shape (some at) a k = k

account-face : (a b : Account) → face a ≡ face b → IsAccount b → IsAccount a
account-face a b h k = record {
  positive = subst (λ (x : Face). 1 ≤ x.id) (sym h) k.positive;
  shape =
      face-Shape a.deleted_at a (
        subst (λ (x : Face). FaceShape x.deleted_at x) (sym h) (Shape-face b.deleted_at b k.shape));
}

-- An update of other columns.
face-AreAccounts :
    (p : Account → Bool) (f : Account → Account) (db : Db)
    → ((a : Account) → face (f a) ≡ face a)
    → AreAccounts db
    → AreAccounts (record db { users = update_where p f db.users })
face-AreAccounts p f db same h =
    update-AreAccounts p f db (λ a. ap (λ (x : Face). x.id) (same a))
      (λ a e k. account-face (f a) a (same a) k)
      (apart-update p f db.users (λ a b.
          clash-face (step p f a) (step p f b) a b (face-step p f same a) (face-step p f same b))
        ∙ h.unique)
      h

-- Changes of the other tables.
pub users_same :
    (db db' : Db)
    → db'.users ≡ db.users
    → db'.next_user_id ≡ db.next_user_id
    → AreAccounts db
    → AreAccounts db'
users_same db db' same next h = record {
  started = rw next h.started;
  below = rw (next, same) h.below;
  grows = rw same h.grows;
  unique = rw same h.unique;
  accounts = rw same h.accounts;
}

pub accept_policy-AreAccounts :
    (now user_id : ℕ) (version : Text) (db : Db)
    → AreAccounts db
    → AreAccounts (accept_policy now user_id version db)
unfolding accept_policy
accept_policy-AreAccounts now user_id version db h =
    face-AreAccounts (of_id user_id)
      (λ a. record a { policy_version = some version; policy_accepted_at = some now }) db
      (λ a. refl) h

pub set_allowed-AreAccounts :
    (login : Text) (is_allowed : Bool) (db : Db)
    → AreAccounts db
    → AreAccounts (set_allowed login is_allowed db).0
unfolding set_allowed
set_allowed-AreAccounts login is_allowed db h =
    face-AreAccounts (of_lower_login login) (λ a. record a { is_allowed = is_allowed }) db
      (λ a. refl) h

pub set_last_notified_image_sha-AreAccounts :
    (user_id : ℕ) (sha : Text) (db : Db)
    → AreAccounts db
    → AreAccounts (set_last_notified_image_sha user_id sha db)
unfolding set_last_notified_image_sha
set_last_notified_image_sha-AreAccounts user_id sha db h =
    face-AreAccounts (of_id user_id) (λ a. record a { last_notified_image_sha = some sha }) db
      (λ a. refl) h

pub seed_allowlist-AreAccounts :
    (logins : List Text) (db : Db) → AreAccounts db → AreAccounts (seed_allowlist logins db).0
unfolding seed_allowlist
seed_allowlist-AreAccounts logins db h =
    face-AreAccounts (is_seeded logins) (λ a. record a { is_allowed = true }) db (λ a. refl) h

pub save_tokens-AreAccounts :
    (gcm : Gcm) (user_id : ℕ) (tokens : TokenSet) (db : Db)
    → AreAccounts db
    → AreAccounts (save_tokens gcm user_id tokens db)
unfolding save_tokens
save_tokens-AreAccounts gcm user_id tokens db h =
    face-AreAccounts (of_id user_id) (set_tokens gcm user_id tokens) db (λ a. refl) h

pub finish_deploy_notification-AreAccounts :
    (id user_id : ℕ) (digest : Text) (state : NotificationState) (db : Db)
    → AreAccounts db
    → AreAccounts (finish_deploy_notification id user_id digest state db)
unfolding finish_deploy_notification
finish_deploy_notification-AreAccounts id user_id digest sent db h =
    set_last_notified_image_sha-AreAccounts user_id digest _ (users_same db _ refl refl h)
finish_deploy_notification-AreAccounts id user_id digest pending db h = users_same db _ refl refl h
finish_deploy_notification-AreAccounts id user_id digest expired db h = users_same db _ refl refl h
