-- ===== src/Accounts/Erasure.antt =====
-- The deletion of accounts: `softDeleteUser` and `hardDeleteOldUsers` of
-- onboarding/users.repository.ts.
use swkoo_kr.Prelude.{
  ℕ, Bool, false, not, ◌&&◌, Option, none, some, List, ◌++◌, if◌then◌else◌, ◌==◌, nat_eq, Result,
  ok, err, any, find, keep, update_where, length, ltb,
}
use swkoo_kr.Prelude.Texts.{Text, lit, text_eq, to_lower}
use swkoo_kr.Prelude.Integers.{negate, decimal}
use swkoo_kr.Accounts.Db.{Db, DbError, constraint_unique, Account, AuditRow, PatchPlanRow}
use swkoo_kr.Accounts.Users.{store, of_id}
use swkoo_kr.Accounts.Reservations.{of_login}

unfoldable pub placeholder : ℕ → Text
placeholder user_id = lit "deleted_" ++ decimal user_id

abbrev pub rename_reservation : Text → Text → Db → Result DbError Db
rename_reservation login name db =
    if any (of_login login) db.admission_reservations
      && any (of_login name) db.admission_reservations
      && not (login == name)
    then err constraint_unique
    else ok (record db {
      admission_reservations =
          update_where (of_login login) (λ r. record r { login = name }) db.admission_reservations;
    })

abbrev pub drop_sessions : ℕ → Db → Db
drop_sessions user_id db = record db {
  sessions = keep (λ s. not (s.user_id == user_id)) db.sessions;
}

abbrev pub drop_notifications : ℕ → Db → Db
drop_notifications user_id db = record db {
  deploy_notifications = keep (λ n. not (n.user_id == user_id)) db.deploy_notifications;
}

abbrev without_plans : ℕ → Option (List PatchPlanRow) → Option (List PatchPlanRow)
without_plans user_id none = none
without_plans user_id (some plans) = some (keep (λ p. not (p.user_id == user_id)) plans)

abbrev pub drop_plans : ℕ → Db → Db
drop_plans user_id db = record db {
  security_patch_plans = without_plans user_id db.security_patch_plans;
}

abbrev pub by_actor : Text → AuditRow → Bool
by_actor actor r = r.entry.actor == actor

abbrev pub rename_actor : Text → Text → Db → Db
rename_actor login name db = record db {
  audit_log =
      update_where (by_actor login) (λ r. record r { entry = record r.entry { actor = name } })
        db.audit_log;
}

abbrev pub erased : ℕ → Account → Account
erased now a = record a {
  github_id = negate a.id;
  github_login = placeholder a.id;
  name = none;
  email = none;
  avatar_url = none;
  access_token = none;
  refresh_token = none;
  token_expires_at = none;
  is_allowed = false;
  subdomain = none;
  deleted_at = some now;
}

abbrev pub erase_rest : ℕ → ℕ → Text → Db → Result DbError Db
erase_rest now user_id login db =
    let db' =
      rename_actor login (placeholder user_id)
        (drop_plans user_id (drop_notifications user_id (drop_sessions user_id db))) in
    store (update_where (of_id user_id) (erased now) db'.users) db'

abbrev then_rest : ℕ → ℕ → Text → Result DbError Db → Result DbError Db
then_rest now user_id login (err e) = err e
then_rest now user_id login (ok db) = erase_rest now user_id login db

abbrev erase_row : ℕ → ℕ → Option Account → Db → Result DbError Db
erase_row now user_id none db = ok db
erase_row now user_id (some a) db =
    then_rest now user_id a.github_login
      (rename_reservation (to_lower a.github_login) (placeholder user_id) db)

-- One transaction: where a statement is refused, nothing is changed.
unfoldable pub soft_delete_user : ℕ → ℕ → Db → Result DbError Db
unfolding placeholder store
soft_delete_user now user_id db = erase_row now user_id (find (of_id user_id) db.users) db

abbrev pub older : ℕ → Option ℕ → Bool
older cutoff none = false
older cutoff (some at) = ltb at cutoff

-- `deleted_at IS NOT NULL AND deleted_at < ?`
abbrev pub is_old : ℕ → Account → Bool
is_old cutoff a = older cutoff a.deleted_at

abbrev pub is_actor_of : List Account → AuditRow → Bool
is_actor_of rows r = any (λ a. placeholder a.id == r.entry.actor) rows

unfoldable pub hard_delete_old_users : ℕ → Db → Db × ℕ
unfolding placeholder
hard_delete_old_users cutoff db =
    let rows = keep (is_old cutoff) db.users in
    (
      record db {
        audit_log = keep (λ r. not (is_actor_of rows r)) db.audit_log;
        users = keep (λ a. not (is_old cutoff a)) db.users;
      },
      length rows,
    )
