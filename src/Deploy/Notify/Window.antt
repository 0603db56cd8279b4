-- ===== src/Deploy/Notify/Window.antt =====
-- When the mails on one deployment are sent.
use mathlib.Core.Option
use swkoo_kr.Prelude.{
  ℕ, ◌≡◌, refl, sym, ◌∙◌, ap, subst, inl, inr, Bool, true, ◌&&◌, Option, some, List, ◌==◌, nat_eq,
  find, update_where, Bool-cases, arith,
}
use swkoo_kr.Prelude.Rows.{step, find-update_where}
use swkoo_kr.Prelude.Texts.{Text, text_eq}
use swkoo_kr.Accounts.Db.{Db, Notification, NotificationState, pending, sent, expired}
use swkoo_kr.Accounts.Users.{UserRow, set_last_notified_image_sha}
use swkoo_kr.Accounts.Notifications.{
  of_deploy, select_deploy, is_pending, attempted, set_notified, start_deploy_notification_attempt,
  finish_deploy_notification,
}

module _ (user : UserRow) (repo digest : Text) where
  abbrev pub row : Db → Option Notification
  row db = select_deploy user.id repo digest db

  step-same :
      (p : Notification → Bool) (f : Notification → Notification)
      → ((x : Notification) → of_deploy user.id repo digest (f x) ≡ of_deploy user.id repo digest x)
      → (x : Notification)
      → of_deploy user.id repo digest (step p f x) ≡ of_deploy user.id repo digest x
  step-same p f same x = elim (Bool-cases (p x)) [ inl t ↦ rw t (same x) | inr u ↦ rw u refl ]

  update-row :
      (p : Notification → Bool) (f : Notification → Notification) (rows : List Notification)
      (n : Notification)
      → ((x : Notification) → of_deploy user.id repo digest (f x) ≡ of_deploy user.id repo digest x)
      → find (of_deploy user.id repo digest) rows ≡ some n
      → find (of_deploy user.id repo digest) (update_where p f rows) ≡ some (step p f n)
  update-row p f rows n same e =
      find-update_where p f (of_deploy user.id repo digest) rows (step-same p f same)
      ∙ ap (Option.map (step p f)) e

  set_notified-rows :
      (state : NotificationState) (db : Db)
      → (set_notified state user.id digest db).deploy_notifications ≡ db.deploy_notifications
  unfolding set_last_notified_image_sha
  set_notified-rows pending db = refl
  set_notified-rows sent db = refl
  set_notified-rows expired db = refl

  -- Another state keeps the times of the attempts.
  unfoldable pub HasTimes : Notification → Option Notification → Type 0
  HasTimes n o =
      (m : Notification) × (o ≡ some m)
      × (m.first_attempt_at ≡ n.first_attempt_at)
      × (m.next_attempt_at ≡ n.next_attempt_at)

  step-times :
      (id : ℕ) (state : NotificationState) (n : Notification)
      → HasTimes n (some (step (λ m. m.id == id) (λ m. record m { state = state }) n))
  unfolding HasTimes
  step-times id state n = elim (Bool-cases (n.id == id)) [
    | inl t ↦ (record n { state = state }, rw t refl, refl, refl)
    | inr f ↦ (n, rw f refl, refl, refl)
  ]

  pub finish-row :
      (id : ℕ) (state : NotificationState) (db : Db) (n : Notification)
      → row db ≡ some n
      → HasTimes n (row (finish_deploy_notification id user.id digest state db))
  unfolding finish_deploy_notification
  finish-row id state db n e =
      subst (HasTimes n)
        (sym (
          ap (find (of_deploy user.id repo digest)) (set_notified-rows state _)
          ∙ update-row (λ m. m.id == id) (λ m. record m { state = state }) db.deploy_notifications n
              (λ x. refl) e))
        (step-times id state n)

  pub start-row :
      (now : ℕ) (db : Db) (n : Notification)
      → row db ≡ some n
      → is_pending n.state ≡ true
      → row (start_deploy_notification_attempt n.id now db) ≡ some (attempted now n)
  unfolding start_deploy_notification_attempt
  start-row now db n e p =
      update-row (λ m. m.id == n.id && is_pending m.state) (attempted now) db.deploy_notifications n
        (λ x. refl) e
      ∙ (let here : (n.id == n.id && is_pending n.state) ≡ true = ground arith in rw here refl)
