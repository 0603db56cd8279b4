-- ===== src/Accounts/Reach.antt =====
-- The tables that the repository reaches by its operations, in any order.
use swkoo_kr.Prelude.{arith, ℕ, ◌≡◌, refl, Bool, Option, none, List, [], ok}
use swkoo_kr.Prelude.Texts.{Text}
use swkoo_kr.Accounts.Db.{Db, NotificationState}
use swkoo_kr.Accounts.Users.{
  UserUpsert, apart, upsert_user, accept_policy, set_allowed, set_subdomain,
  set_last_notified_image_sha, seed_allowlist,
}
use swkoo_kr.Accounts.Notifications.{finish_deploy_notification}
use swkoo_kr.Accounts.Tokens.{TokenSet, save_tokens}
use swkoo_kr.Accounts.Cipher.{Gcm}
use swkoo_kr.Accounts.Erasure.{soft_delete_user, hard_delete_old_users}
use swkoo_kr.Accounts.Unique.{AreAccounts}
use swkoo_kr.Accounts.Steps.{
  users_same, accept_policy-AreAccounts, set_allowed-AreAccounts,
  set_last_notified_image_sha-AreAccounts, seed_allowlist-AreAccounts, save_tokens-AreAccounts,
  finish_deploy_notification-AreAccounts,
}
use swkoo_kr.Accounts.Checked.{
  upsert_user-AreAccounts, set_subdomain-AreAccounts, soft_delete_user-AreAccounts,
  hard_delete_old_users-AreAccounts,
}

-- The tables as `onModuleInit` makes them.
abbrev pub empty_db : Db
empty_db = record {
  users = [];
  next_user_id = 1;
  audit_log = [];
  sessions = [];
  admission_reservations = [];
  deploy_notifications = [];
  next_notification_id = 1;
  security_patch_plans = none;
}

-- One operation; `others` is any of those that do not touch the table `users`.
pub data DbStep : Db → Db → Type 0 where
  signed_in :
      (now : ℕ) (u : UserUpsert) (db db' : Db) → upsert_user now u db ≡ ok db' → DbStep db db'
  policy_accepted :
      (now user_id : ℕ) (version : Text) (db : Db)
      → DbStep db (accept_policy now user_id version db)
  allowed :
      (login : Text) (is_allowed : Bool) (db : Db) → DbStep db (set_allowed login is_allowed db).0
  subdomain_set :
      (login : Text) (subdomain : Option Text) (db : Db)
      → DbStep db (set_subdomain login subdomain db).0
  notified :
      (user_id : ℕ) (sha : Text) (db : Db) → DbStep db (set_last_notified_image_sha user_id sha db)
  seeded : (logins : List Text) (db : Db) → DbStep db (seed_allowlist logins db).0
  tokens_saved :
      (gcm : Gcm) (user_id : ℕ) (tokens : TokenSet) (db : Db)
      → DbStep db (save_tokens gcm user_id tokens db)
  finished :
      (id user_id : ℕ) (digest : Text) (state : NotificationState) (db : Db)
      → DbStep db (finish_deploy_notification id user_id digest state db)
  soft_deleted :
      (now user_id : ℕ) (db db' : Db) → soft_delete_user now user_id db ≡ ok db' → DbStep db db'
  hard_deleted : (cutoff : ℕ) (db : Db) → DbStep db (hard_delete_old_users cutoff db).0
  others : (db db' : Db) → db'.users ≡ db.users → db'.next_user_id ≡ db.next_user_id → DbStep db db'

pub data Reaches (db : Db) : Db → Type 0 where
  start : Reaches db db
  then_step : {mid end : Db} → Reaches db mid → DbStep mid end → Reaches db end

step-AreAccounts : {db db' : Db} → DbStep db db' → AreAccounts db → AreAccounts db'
step-AreAccounts (signed_in now u db db' e) h = upsert_user-AreAccounts now u db db' e h
step-AreAccounts (policy_accepted now user_id version db) h =
    accept_policy-AreAccounts now user_id version db h
step-AreAccounts (allowed login is_allowed db) h = set_allowed-AreAccounts login is_allowed db h
step-AreAccounts (subdomain_set login subdomain db) h =
    set_subdomain-AreAccounts login subdomain db h
step-AreAccounts (notified user_id sha db) h =
    set_last_notified_image_sha-AreAccounts user_id sha db h
step-AreAccounts (seeded logins db) h = seed_allowlist-AreAccounts logins db h
step-AreAccounts (tokens_saved gcm user_id tokens db) h =
    save_tokens-AreAccounts gcm user_id tokens db h
step-AreAccounts (finished id user_id digest state db) h =
    finish_deploy_notification-AreAccounts id user_id digest state db h
step-AreAccounts (soft_deleted now user_id db db' e) h =
    soft_delete_user-AreAccounts now user_id db db' e h
step-AreAccounts (hard_deleted cutoff db) h = hard_delete_old_users-AreAccounts cutoff db h
step-AreAccounts (others db db' same next) h = users_same db db' same next h

init-AreAccounts : AreAccounts empty_db
unfolding apart
init-AreAccounts = record {
  started = omega arith;
  below = tt;
  grows = tt;
  unique = refl;
  accounts = tt;
}

-- In every table `users` that the operations reach, no two rows share an id, a GitHub id, a login
-- or a claimed subdomain; a live row has a GitHub id, and an erased one has the negated id, the
-- placeholder login, and no name, e-mail address or picture.
pub Reaches-AreAccounts : {db : Db} → Reaches empty_db db → AreAccounts db
Reaches-AreAccounts start = init-AreAccounts
Reaches-AreAccounts (then_step r s) = step-AreAccounts s (Reaches-AreAccounts r)
