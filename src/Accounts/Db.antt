-- ===== src/Accounts/Db.antt =====
-- The tables of onboarding/users.repository.ts. A timestamp is its milliseconds; a table's rows are
-- in the order of their ids.
use swkoo_kr.Prelude.{ℕ, Bool, Option, List}
use swkoo_kr.Prelude.Texts.{Text}
use swkoo_kr.Prelude.Integers.{ℤ}

-- A row of `users`, with all its columns.
pub record Account : Type 0 where
  pub id : ℕ
  pub github_id : ℤ
  pub github_login : Text
  pub name : Option Text
  pub email : Option Text
  pub avatar_url : Option Text
  pub created_at : ℕ
  pub last_login_at : ℕ
  pub access_token : Option Text
  pub refresh_token : Option Text
  pub token_expires_at : Option Text
  pub is_allowed : Bool
  pub deleted_at : Option ℕ
  pub policy_version : Option Text
  pub policy_accepted_at : Option ℕ
  pub subdomain : Option Text
  pub last_notified_image_sha : Option Text

pub record AuditLogInsert : Type 0 where
  pub actor : Text
  pub action : Text
  pub target : Option Text
  pub reason : Option Text
  pub meta_json : Option Text

pub record AuditRow : Type 0 where
  pub at : ℕ
  pub entry : AuditLogInsert

pub record Session : Type 0 where
  pub id : Text
  pub user_id : ℕ
  pub expires_at : ℕ  -- in seconds

pub record Reservation : Type 0 where
  pub login : Text
  pub created_at : ℕ

pub data NotificationState : Type 0 where
  pending sent expired : NotificationState

-- A row of `deploy_notifications`.
pub record Notification : Type 0 where
  pub id : ℕ
  pub user_id : ℕ
  pub repo : Text
  pub digest : Text
  pub payload : Text
  pub idempotency_key : Text
  pub state : NotificationState
  pub first_attempt_at : Option ℕ
  pub next_attempt_at : ℕ

-- A row of `security_patch_plans`, of which this repository looks at the user only.
pub record PatchPlanRow : Type 0 where
  pub user_id : ℕ
  pub data_json : Text
  pub created_at : ℕ

-- `plans` is absent until the table is made.
pub record Db : Type 0 where
  pub users : List Account
  pub next_user_id : ℕ
  pub audit_log : List AuditRow
  pub sessions : List Session
  pub admission_reservations : List Reservation
  pub deploy_notifications : List Notification
  pub next_notification_id : ℕ
  pub security_patch_plans : Option (List PatchPlanRow)

-- A statement that a UNIQUE index refuses; its transaction is rolled back.
pub data DbError : Type 0 where
  constraint_unique : DbError
