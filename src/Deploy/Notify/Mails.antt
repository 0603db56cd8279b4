-- ===== src/Deploy/Notify/Mails.antt =====
-- The mails on one deployment, over a series of rounds.
use swkoo_kr.Prelude.{
  ℕ, ◌+◌, ◌*◌, ◌≡◌, ◌≤◌, ◌<◌, refl, ap, inl, inr, Bool, true, false, ◌&&◌, Option, none, some, List,
  [], ◌∷◌, nat_eq, ltb, find, any, All, AllPairs, Bool-cases, is_some, some-eq, arith,
}
use swkoo_kr.Prelude.Rows.{All-map}
use swkoo_kr.Prelude.Texts.{Text, text_eq}
use swkoo_kr.Accounts.Db.{Db, Notification, sent, expired}
use swkoo_kr.Accounts.Users.{UserRow, audit, find_by_id}
use swkoo_kr.Accounts.Notifications.{
  of_deploy, is_pending, attempted, queue_deploy_notification, start_deploy_notification_attempt,
}
use swkoo_kr.Deploy.Notify.{Tick, Mail, retry_window, is_over, finished, attempt}
use swkoo_kr.Deploy.Notify.Window.{row, HasTimes, finish-row, start-row}

abbrev pub and_then : Option Mail → List ℕ → List ℕ
and_then none times = times
and_then (some m) times = m.at ∷ times

-- The times of the mails of a series of rounds that reach the queue.
unfoldable pub mail_times : UserRow → Text → Text → List Tick → Db → List ℕ
mail_times user repo digest [] db = []
mail_times user repo digest (t ∷ ticks) db =
    let (queued, n) = queue_deploy_notification t.uuid user.id repo digest t.payload db in
    let (after, mail) = attempt t user repo digest queued n in
    and_then mail (mail_times user repo digest ticks after)

-- Five minutes apart at least, and within the window of the first.
abbrev pub IsSpaced : ℕ → ℕ → Type 0
IsSpaced at later = (at + 5 * 60000 ≤ later) × (later < at + retry_window)

any-found {ℓ} :
    {A : Type ℓ} (p : A → Bool) (xs : List A) (a : A) → find p xs ≡ some a → any p xs ≡ true
any-found p [] a e = absurd (cc)
any-found p (x ∷ xs) a e = ground (arith, any-found p xs a)

pub any-missing {ℓ} :
    {A : Type ℓ} (p : A → Bool) (xs : List A) → find p xs ≡ none → any p xs ≡ false
any-missing p [] e = refl
any-missing p (x ∷ xs) e = ground (arith, any-missing p xs)

pub is_over-first :
    (now first : ℕ) (o : Option ℕ)
    → o ≡ some first
    → is_over now o ≡ false
    → now < first + retry_window
is_over-first now first none e h = absurd (cc)
is_over-first now first (some at) e h = ground (arith, some-eq e)

module _ (user : UserRow) (repo digest : Text) where
  -- A round mails nothing and keeps the times, or mails inside the window and moves them on.
  unfoldable pub IsRound : Tick → Notification → Db × Option Mail → Type 0
  IsRound t n (after, none) = HasTimes user repo digest n (row user repo digest after)
  IsRound t n (after, some m) =
      (m.at ≡ t.now)
      × (is_over t.now n.first_attempt_at ≡ false)
      × (n.next_attempt_at ≤ t.now)
      × HasTimes user repo digest (attempted t.now n) (row user repo digest after)

  finished-times :
      (t : Tick) (n : Notification) (id : ℕ) (db : Db)
      → row user repo digest db ≡ some n
      → HasTimes user repo digest n (row user repo digest (finished t user repo digest id db))
  unfolding audit HasTimes
  finished-times t n id db e = elim (Bool-cases (t.accepted && is_some (find_by_id user.id db))) [
    | inl c ↦ rw c (finish-row user repo digest id sent db n e)
    | inr f ↦ rw f (n, e, refl, refl)
  ]

  pub attempt-IsRound :
      (t : Tick) (db : Db) (n : Notification)
      → row user repo digest db ≡ some n
      → IsRound t n (attempt t user repo digest db (some n))
  unfolding attempt IsRound audit HasTimes
  attempt-IsRound t db n e = elim (Bool-cases (is_pending n.state)) [
    | inr f ↦ rw f (n, e, refl, refl)
    | inl p ↦ elim (Bool-cases (is_over t.now n.first_attempt_at)) [
      | inl o ↦ rw (p, o) (finish-row user repo digest n.id expired db n e)
      | inr o ↦ elim (Bool-cases (ltb t.now n.next_attempt_at)) [
        | inl early ↦ rw (p, o, early) (n, e, refl, refl)
        | inr due ↦
            rw (p, o, due)
              (
                refl,
                o,
                ground (arith, due),
                finished-times t (attempted t.now n) n.id
                    (start_deploy_notification_attempt n.id t.now db)
                    (start-row user repo digest t.now db n e p),
              )
      ]
    ]
  ]

  -- The rounds after a first attempt.
  abbrev pub IsLater : ℕ → ℕ → ℕ → Type 0
  IsLater from first at = (from ≤ at) × (at < first + retry_window)

  abbrev pub times_after : List Tick → Db × Option Mail → List ℕ
  times_after ticks (after, mail) = and_then mail (mail_times user repo digest ticks after)

  pub queue-known :
      (uuid payload : Text) (db : Db) (n : Notification)
      → row user repo digest db ≡ some n
      → queue_deploy_notification uuid user.id repo digest payload db ≡ (db, some n)
  unfolding queue_deploy_notification
  queue-known uuid payload db n e =
      let known : any (of_deploy user.id repo digest) db.deploy_notifications ≡ true =
        any-found (of_deploy user.id repo digest) db.deploy_notifications n e in
      rw known (ap (λ o. (db, o)) e)

  abbrev pub IsSeries : ℕ → ℕ → List ℕ → Type 0
  IsSeries from first times = All (IsLater from first) times × AllPairs IsSpaced times

  -- A mail in front of a later series.
  pub IsSeries-cons :
      (at from next first : ℕ) (times : List ℕ)
      → from ≤ at
      → at < first + retry_window
      → first ≤ at
      → next ≡ at + 5 * 60000
      → IsSeries next first times
      → IsSeries from first (at ∷ times)
  IsSeries-cons at from next first times due inside le e (later, spaced) = (
    (
      (due, inside),
      All-map (IsLater next first) (IsLater from first) times
          (λ u l. (omega (arith, l.0, e, due), l.1)) later,
    ),
    (
      All-map (IsLater next first) (IsSpaced at) times
          (λ u l. (omega (arith, l.0, e), omega (arith, l.1, le))) later,
      spaced,
    ),
  )
