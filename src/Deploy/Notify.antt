-- ===== src/Deploy/Notify.antt =====
-- deploy/deploy-notifications.service.ts: the mail on a deployment that is ready. The payload is
-- given as JSON by `payload_of`.
pub mod Window
pub mod Mails
pub mod Spacing
use swkoo_kr.Prelude.{
  ℕ, ◌+◌, ◌-◌, ◌*◌, Bool, true, false, not, ◌&&◌, ◌||◌, Option, none, some, List, [], ◌∷◌, ◌++◌,
  if◌then◌else◌, ◌==◌, nat_eq, is_some, ltb, leb, Result, ok, err,
}
use swkoo_kr.Prelude.Texts.{Text, lit, text_eq}
use swkoo_kr.Accounts.Db.{Db, Notification, NotificationState, AuditLogInsert, sent, expired}
use swkoo_kr.Accounts.Users.{UserRow, find_by_id, get_last_notified_image_sha, audit}
use swkoo_kr.Accounts.Notifications.{
  queue_deploy_notification, start_deploy_notification_attempt, finish_deploy_notification,
  is_pending,
}
use swkoo_kr.Domain.Repository.{is_truthy}
use swkoo_kr.Deploy.Image.{Application, is_text, ready_image_digest}
use swkoo_kr.Deploy.Stages.{is_success}
use swkoo_kr.Deploy.Stages.Pipeline.{Stages}
use swkoo_kr.Deploy.Current.{CurrentDeployment, DeploymentState, StateError}

-- What the services answer on one user while the loop is at them.
pub record Tick : Type 0 where
  pub now : ℕ
  pub uuid : Text
  pub current : Result StateError (Option CurrentDeployment)
  pub app : Option Application
  pub stages : Stages
  pub live : Option ℕ
  pub payload : Text
  pub accepted : Bool  -- whether the mail service took the mail

pub record Mail : Type 0 where
  pub payload : Text
  pub key : Text
  pub at : ℕ

abbrev is_active : DeploymentState → Bool
is_active DeploymentState.active = true
is_active DeploymentState.deleting = false

-- The deployment that is there, if it is active.
abbrev pub active_deployment :
    Result StateError (Option CurrentDeployment) → Option CurrentDeployment
active_deployment (ok (some current)) = if is_active current.state then some current else none
active_deployment _ = none

abbrev all_done : Stages → Bool
all_done s =
    is_success s.manifests
    && is_success s.build
    && is_success s.image_detected
    && is_success s.deploy
    && is_success s.live

abbrev answers_well : Option ℕ → Bool
answers_well none = false
answers_well (some status) = leb 200 status && ltb status 400

abbrev allowed_now : Option UserRow → Bool
allowed_now none = false
allowed_now (some user) = user.is_allowed

-- The tests between the digest and the queue.
abbrev pub is_news : Tick → UserRow → Text → Db → Bool
is_news t user digest db =
    not (is_text digest (get_last_notified_image_sha user.id db))
    && all_done t.stages
    && is_text digest t.stages.image_detected.image_digest
    && answers_well t.live
    && allowed_now (find_by_id user.id db)

abbrev pub ready_digest : Tick → UserRow → Db → CurrentDeployment → Option Text → Option Text
ready_digest t user db current none = none
ready_digest t user db current (some digest) =
    if is_news t user digest db then some digest else none

abbrev about : Text → Text → Option Text → Text → UserRow → Text → AuditLogInsert
about action repo reason digest user actor = record {
  actor = actor;
  action = action;
  target = some repo;
  reason = reason;
  meta_json = some (lit "{\"digest\":\"" ++ digest ++ lit "\"}");
}

abbrev pub retry_window : ℕ
retry_window = 23 * 60 * 60000

-- `now - firstAttemptAt >= 23 h`, where there was an attempt
abbrev pub is_over : ℕ → Option ℕ → Bool
is_over now none = false
is_over now (some first) = leb (first + retry_window) now

abbrev finished : Tick → UserRow → Text → Text → ℕ → Db → Db
finished t user repo digest id db =
    if t.accepted && is_some (find_by_id user.id db)
    then audit t.now (about (lit "DEPLOY_NOTIFY") repo none digest user user.github_login)
        (finish_deploy_notification id user.id digest sent db)
    else db

-- From the queued notification on.
unfoldable pub attempt : Tick → UserRow → Text → Text → Db → Option Notification → Db × Option Mail
attempt t user repo digest db none = (db, none)
attempt t user repo digest db (some n) =
    if not (is_pending n.state)
    then (db, none)
    else if is_over t.now n.first_attempt_at
    then (
      audit t.now
          (about (lit "DEPLOY_NOTIFY_EXPIRED") repo (some (lit "RETRY_WINDOW_EXPIRED")) digest user
            user.github_login)
          (finish_deploy_notification n.id user.id digest expired db),
      none,
    )
    else if ltb t.now n.next_attempt_at
    then (db, none)
    else (
      finished t user repo digest n.id (start_deploy_notification_attempt n.id t.now db),
      some (record { payload = n.payload; key = n.idempotency_key; at = t.now }),
    )

abbrev pub notify_of : Tick → UserRow → Db → CurrentDeployment → Option Text → Db × Option Mail
notify_of t user db current none = (db, none)
notify_of t user db current (some digest) =
    let (db', n) = queue_deploy_notification t.uuid user.id current.repo digest t.payload db in
    attempt t user current.repo digest db' n

abbrev pub notify_deployment : Tick → UserRow → Db → Option CurrentDeployment → Db × Option Mail
notify_deployment t user db none = (db, none)
notify_deployment t user db (some current) =
    notify_of t user db current
      (ready_digest t user db current (ready_image_digest t.app current.login current.repo))

-- One round of the loop of `notifyReadyDeployments`.
unfoldable pub notify_user : Tick → UserRow → Db → Db × Option Mail
notify_user t user db =
    if is_truthy user.email && user.is_allowed
    then notify_deployment t user db (active_deployment t.current)
    else (db, none)

-- `notifyReadyDeployments`, where it is not running and mail is enabled.
unfoldable pub notify_ready_deployments : (UserRow → Tick) → List UserRow → Db → Db × List Mail
notify_ready_deployments tick_of [] db = (db, [])
notify_ready_deployments tick_of (user ∷ users) db =
    let (db', mail) = notify_user (tick_of user) user db in
    let (db'', mails) = notify_ready_deployments tick_of users db' in
    (db'', elim mail [ none ↦ mails | some m ↦ m ∷ mails ])
