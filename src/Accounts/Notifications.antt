-- ===== src/Accounts/Notifications.antt =====
-- The statements of onboarding/users.repository.ts on the table `deploy_notifications`.
use swkoo_kr.Prelude.{
  ℕ, ◌+◌, ◌*◌, Bool, true, false, ◌&&◌, Option, none, some, List, [], ◌∷◌, ◌++◌, if◌then◌else◌,
  ◌==◌, nat_eq, coalesce, any, find, keep, update_where,
}
use swkoo_kr.Prelude.Texts.{Text, lit, text_eq}
use swkoo_kr.Accounts.Db.{Db, Notification, NotificationState, pending, sent}
use swkoo_kr.Accounts.Users.{set_last_notified_image_sha}

abbrev pub of_deploy : ℕ → Text → Text → Notification → Bool
of_deploy user_id repo digest n = n.user_id == user_id && n.repo == repo && n.digest == digest

-- `INSERT OR IGNORE`, with the columns' defaults.
abbrev pub new_notification : ℕ → ℕ → Text → Text → Text → Text → Notification
new_notification id user_id repo digest payload uuid = record {
  id = id;
  user_id = user_id;
  repo = repo;
  digest = digest;
  payload = payload;
  idempotency_key = lit "deploy-success/" ++ uuid;
  state = pending;
  first_attempt_at = none;
  next_attempt_at = 0;
}

abbrev pub insert_or_ignore : ℕ → Text → Text → Text → Text → Db → Db
insert_or_ignore user_id repo digest payload uuid db =
    if any (of_deploy user_id repo digest) db.deploy_notifications then db else record db {
      deploy_notifications =
          db.deploy_notifications
          ++ new_notification db.next_notification_id user_id repo digest payload uuid ∷ [];
      next_notification_id = db.next_notification_id + 1;
    }

abbrev pub select_deploy : ℕ → Text → Text → Db → Option Notification
select_deploy user_id repo digest db = find (of_deploy user_id repo digest) db.deploy_notifications

-- The payload is given as JSON, with the repository that it names; `uuid` is of `randomUUID()`.
unfoldable pub queue_deploy_notification :
    Text → ℕ → Text → Text → Text → Db → Db × Option Notification
queue_deploy_notification uuid user_id repo digest payload db =
    let db' = insert_or_ignore user_id repo digest payload uuid db in
    (db', select_deploy user_id repo digest db')

abbrev pub is_pending : NotificationState → Bool
is_pending pending = true
is_pending _ = false

abbrev pub attempted : ℕ → Notification → Notification
attempted now n = record n {
  first_attempt_at = coalesce n.first_attempt_at (some now);
  next_attempt_at = now + 5 * 60000;
}

unfoldable pub start_deploy_notification_attempt : ℕ → ℕ → Db → Db
start_deploy_notification_attempt id now db = record db {
  deploy_notifications =
      update_where (λ n. n.id == id && is_pending n.state) (attempted now) db.deploy_notifications;
}

abbrev pub set_notified : NotificationState → ℕ → Text → Db → Db
set_notified sent user_id digest db = set_last_notified_image_sha user_id digest db
set_notified _ user_id digest db = db

unfoldable pub finish_deploy_notification : ℕ → ℕ → Text → NotificationState → Db → Db
finish_deploy_notification id user_id digest state db =
    set_notified state user_id digest (record db {
      deploy_notifications =
          update_where (λ n. n.id == id) (λ n. record n { state = state }) db.deploy_notifications;
    })

unfoldable pub list_deploy_notifications : ℕ → Db → List Notification
list_deploy_notifications user_id db = keep (λ n. n.user_id == user_id) db.deploy_notifications
