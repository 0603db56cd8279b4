-- ===== src/Deploy/Notify/Spacing.antt =====
-- The mails on one deployment are few: how far apart they are.
use swkoo_kr.Prelude.{
  ℕ, ◌≡◌, ◌≤◌, refl, ◌∙◌, ap, subst, true, false, Option, none, some, List, [], ◌∷◌, nat_eq, find,
  any, coalesce, AllPairs, find-append, arith,
}
use swkoo_kr.Prelude.Texts.{Text, text_eq, text_beq_refl}
use swkoo_kr.Accounts.Db.{Db, Notification}
use swkoo_kr.Accounts.Users.{UserRow}
use swkoo_kr.Accounts.Notifications.{of_deploy, new_notification, queue_deploy_notification}
use swkoo_kr.Deploy.Notify.{Tick, Mail, attempt}
use swkoo_kr.Deploy.Notify.Window.{row, HasTimes}
use swkoo_kr.Deploy.Notify.Mails.{
  mail_times, IsSpaced, is_over-first, any-missing, IsRound, attempt-IsRound, queue-known,
  IsSeries-cons, times_after, IsSeries,
}

module _ (user : UserRow) (repo digest : Text) where
  -- What a round adds to the series of those that follow.
  round-IsSeries :
      (t : Tick) (ticks : List Tick) (n : Notification) (first : ℕ)
      → n.first_attempt_at ≡ some first
      → first ≤ n.next_attempt_at
      → ((db : Db) (m : Notification)
          → row user repo digest db ≡ some m
          → m.first_attempt_at ≡ some first
          → first ≤ m.next_attempt_at
          → IsSeries user repo digest m.next_attempt_at first
              (mail_times user repo digest ticks db))
      → (p : Db × Option Mail) → IsRound user repo digest t n p
      → IsSeries user repo digest n.next_attempt_at first (times_after user repo digest ticks p)
  unfolding IsRound HasTimes
  round-IsSeries t ticks n first f le next (after, none) (m, r, g, h) =
      subst (λ x. IsSeries user repo digest x first (mail_times user repo digest ticks after)) h
        (next after m r (g ∙ f) (omega (arith, h, le)))
  round-IsSeries t ticks n first f le next (after, some mail) (at, over, due, (m, r, g, h)) =
      let held : m.first_attempt_at ≡ some first = g ∙ ap (λ o. coalesce o (some t.now)) f in
      IsSeries-cons user repo digest mail.at n.next_attempt_at m.next_attempt_at first
        (mail_times user repo digest ticks after) (omega (arith, at, due))
        (omega (arith, at, is_over-first t.now first n.first_attempt_at f over))
        (omega (arith, at, due, le)) (omega (arith, at, h))
        (next after m r held (omega (arith, h, due, le)))

  later-mails :
      (ticks : List Tick) (db : Db) (n : Notification) (first : ℕ)
      → row user repo digest db ≡ some n
      → n.first_attempt_at ≡ some first
      → first ≤ n.next_attempt_at
      → IsSeries user repo digest n.next_attempt_at first (mail_times user repo digest ticks db)
  unfolding mail_times
  later-mails [] db n first e f le = (tt, tt)
  later-mails (t ∷ ticks) db n first e f le =
      rw (queue-known user repo digest t.uuid t.payload db n e) (
        round-IsSeries t ticks n first f le (λ after m. later-mails ticks after m first)
          (attempt t user repo digest db (some n)) (attempt-IsRound user repo digest t db n e))

  -- Up to the first mail.
  fresh-round :
      (t : Tick) (ticks : List Tick) (n : Notification)
      → n.first_attempt_at ≡ none
      → ((db : Db) (m : Notification)
          → row user repo digest db ≡ some m
          → m.first_attempt_at ≡ none
          → AllPairs IsSpaced (mail_times user repo digest ticks db))
      → (p : Db × Option Mail) → IsRound user repo digest t n p
      → AllPairs IsSpaced (times_after user repo digest ticks p)
  unfolding IsRound HasTimes
  fresh-round t ticks n f next (after, none) (m, r, g, h) = next after m r (g ∙ f)
  fresh-round t ticks n f next (after, some mail) (at, over, due, (m, r, g, h)) =
      let held : m.first_attempt_at ≡ some t.now = g ∙ ap (λ o. coalesce o (some t.now)) f in
      (IsSeries-cons user repo digest mail.at mail.at m.next_attempt_at t.now
        (mail_times user repo digest ticks after) (omega arith) (omega (arith, at))
        (omega (arith, at)) (omega (arith, at, h))
        (later-mails ticks after m t.now r held (omega (arith, h)))).1

  fresh-mails :
      (ticks : List Tick) (db : Db) (n : Notification)
      → row user repo digest db ≡ some n
      → n.first_attempt_at ≡ none
      → AllPairs IsSpaced (mail_times user repo digest ticks db)
  unfolding mail_times
  fresh-mails [] db n e f = tt
  fresh-mails (t ∷ ticks) db n e f = rw (queue-known user repo digest t.uuid t.payload db n e) (
      fresh-round t ticks n f (λ after m. fresh-mails ticks after m)
        (attempt t user repo digest db (some n)) (attempt-IsRound user repo digest t db n e))

  queue-new :
      (uuid payload : Text) (db : Db)
      → row user repo digest db ≡ none
      → let new = new_notification db.next_notification_id user.id repo digest payload uuid in
        let (after, o) = queue_deploy_notification uuid user.id repo digest payload db in
        (o ≡ some new) × (row user repo digest after ≡ some new)
  unfolding queue_deploy_notification
  queue-new uuid payload db e =
      let new = new_notification db.next_notification_id user.id repo digest payload uuid in
      let absent : any (of_deploy user.id repo digest) db.deploy_notifications ≡ false =
        any-missing (of_deploy user.id repo digest) db.deploy_notifications e in
      let here : of_deploy user.id repo digest new ≡ true =
        ground (arith, text_beq_refl repo, text_beq_refl digest) in
      let found : find (of_deploy user.id repo digest) (new ∷ []) ≡ some new = rw here refl in
      let placed =
        find-append (of_deploy user.id repo digest) db.deploy_notifications (new ∷ []) e in
      rw absent (placed ∙ found, placed ∙ found)

  started :
      (t : Tick) (ticks : List Tick) (q : Db × Option Notification) (n : Notification)
      → q.1 ≡ some n
      → row user repo digest q.0 ≡ some n
      → n.first_attempt_at ≡ none
      → AllPairs IsSpaced (times_after user repo digest ticks (attempt t user repo digest q.0 q.1))
  started t ticks q n e r f = rw e (
      fresh-round t ticks n f (λ after m. fresh-mails ticks after m)
        (attempt t user repo digest q.0 (some n)) (attempt-IsRound user repo digest t q.0 n r))

-- However often the loop comes to a deployment that was not queued before, its mails are five
-- minutes apart at least, and all within 23 hours of the first.
pub mail_times-IsSpaced :
    (user : UserRow) (repo digest : Text) (ticks : List Tick) (db : Db)
    → row user repo digest db ≡ none
    → AllPairs IsSpaced (mail_times user repo digest ticks db)
unfolding mail_times
mail_times-IsSpaced user repo digest [] db e = tt
mail_times-IsSpaced user repo digest (t ∷ ticks) db e =
    let (queued, found) = queue-new user repo digest t.uuid t.payload db e in
    started user repo digest t ticks
      (queue_deploy_notification t.uuid user.id repo digest t.payload db) _ queued found refl
