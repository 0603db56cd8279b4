-- ===== src/Accounts/Forgets.antt =====
-- What the deletion of an account removes.
use swkoo_kr.Prelude.{
  ◌≤◌, ℕ, ◌≡◌, ◌≢◌, refl, ap, ◌∙◌, Bool, true, false, not, none, some, List, [], ◌∷◌, arith, ◌==◌,
  inl, inr, Bool-cases, ok, any, find, keep, update_where, All, subst, nat_eq,
}
use mathlib.Core.Option
use swkoo_kr.Prelude.Rows.{
  step, All-map, All-find, All-update_where, any-false, find_of_All, find-update_where,
}
use swkoo_kr.Prelude.Texts.{Text, to_lower, text_eq, text_beq_iff}
use swkoo_kr.Prelude.Integers.{negate, int_eq, int_beq_iff}
use swkoo_kr.Accounts.Db.{Db, Account, AuditRow}
use swkoo_kr.Accounts.Users.{
  apart, clash, of_id, find_by_login, find_by_github_id, find_by_id, found,
}
use swkoo_kr.Accounts.Erasure.{placeholder, erased, soft_delete_user, erase_rest, by_actor}
use swkoo_kr.Accounts.Unique.{AreAccounts, IsAccount, store-ok}
use swkoo_kr.Accounts.Accepted.{rename_reservation-ok, erase_rest-ok}
use swkoo_kr.Accounts.Reservations.{of_login}
use swkoo_kr.Accounts.Steps.{users_same}

any-keep-not : {A : Type 0} (q : A → Bool) (xs : List A) → any q (keep (λ x. not (q x)) xs) ≡ false
any-keep-not q [] = refl
any-keep-not q (x ∷ xs) = ground (arith, any-keep-not q xs)

-- No entry has the old actor's name after the renaming.
rename-any :
    (login name : Text) (rows : List AuditRow)
    → login ≢ name
    → any (by_actor login) (
        update_where
          (by_actor login)
          (λ r. record r { entry = record r.entry { actor = name } })
          rows)
      ≡ false
rename-any login name [] differs = refl
rename-any login name (r ∷ rows) differs = ground (
  arith,
  text_beq_iff name login,
  text_beq_iff r.entry.actor login,
  differs,
  rename-any login name rows differs,
)

-- The other rows have another login and another GitHub id.
module _ (id : ℕ) (a : Account) where
  abbrev Differs : Account → Type 0
  Differs r =
      of_id id r ≡ false
      → ((r.github_login == a.github_login) ≡ false) × ((r.github_id == a.github_id) ≡ false)

  Differs-from : (r : Account) → clash a r ≡ false → Differs r
  Differs-from r c k = ground (
    arith,
    text_beq_iff a.github_login r.github_login,
    text_beq_iff r.github_login a.github_login,
    int_beq_iff a.github_id r.github_id,
    int_beq_iff r.github_id a.github_id,
  )

  others-Differ :
      (rows : List Account) → apart rows ≡ true → find (of_id id) rows ≡ some a → All Differs rows
  unfolding apart
  others-Differ [] h e = tt
  others-Differ (r ∷ rows) h e = elim (Bool-cases (of_id id r)) [
    | inl t ↦
        let same : r ≡ a = ground arith in
        (
          λ u. absurd (cc),
          All-map (λ x. clash a x ≡ false) Differs rows Differs-from
              (subst (λ x. All (λ y. clash x y ≡ false) rows) same
                (any-false (clash r) rows (ground arith))),
        )
    | inr u ↦
        let rest : find (of_id id) rows ≡ some a = ground arith in
        let apart_r : clash r a ≡ false =
          All-find (λ x. clash r x ≡ false) (of_id id) rows a
            (any-false (clash r) rows (ground arith)) rest in
        (λ v. ground arith, others-Differ rows (ground arith) rest)
  ]

-- A reader's test that fails on the erased row and on the others finds nothing.
gone :
    (q : Account → Bool) (now id : ℕ) (a : Account) (rows : List Account)
    → ((r : Account) → q (erased now r) ≡ false)
    → ((r : Account) → of_id id r ≡ false → Differs id a r → q r ≡ false)
    → All (Differs id a) rows
    → find q (update_where (of_id id) (erased now) rows) ≡ none
gone q now id a rows dead other h = find_of_All q _ (
    All-update_where (of_id id) (erased now) (Differs id a) (λ r. q r ≡ false) rows
      (λ r d. elim (Bool-cases (of_id id r)) [ inl e ↦ rw e (dead r) | inr e ↦ rw e (other r e d) ])
      h)

step-id : (now id : ℕ) (r : Account) → of_id id (step (of_id id) (erased now) r) ≡ of_id id r
step-id now id r = elim (Bool-cases (of_id id r)) [ inl e ↦ rw e e | inr e ↦ rw e e ]

erased-find :
    (now : ℕ) (a : Account) (rows : List Account)
    → find (of_id a.id) rows ≡ some a
    → find (of_id a.id) (update_where (of_id a.id) (erased now) rows) ≡ some (erased now a)
erased-find now a rows there =
    let self : step (of_id a.id) (erased now) a ≡ erased now a = ground arith in
    find-update_where (of_id a.id) (erased now) (of_id a.id) rows (step-id now a.id)
    ∙ (ap (Option.map (step (of_id a.id) (erased now))) there ∙ ap some self)

-- The row that is left: the id, the times, the policy that was accepted and the image that was
-- notified last stay; the identity, the tokens, the permission and the claim are gone.
abbrev pub shell_of : ℕ → Account → Account
shell_of now a = record {
  id = a.id;
  github_id = negate a.id;
  github_login = placeholder a.id;
  name = none;
  email = none;
  avatar_url = none;
  created_at = a.created_at;
  last_login_at = a.last_login_at;
  access_token = none;
  refresh_token = none;
  token_expires_at = none;
  is_allowed = false;
  deleted_at = some now;
  policy_version = a.policy_version;
  policy_accepted_at = a.policy_accepted_at;
  subdomain = none;
  last_notified_image_sha = a.last_notified_image_sha;
}

-- What is left of an account that is deleted.
pub record IsErased (now : ℕ) (a : Account) (db : Db) : Type 0 where
  pub shell : find (of_id a.id) db.users ≡ some (shell_of now a)
  pub no_id : find_by_id a.id db ≡ none
  pub no_login : find_by_login a.github_login db ≡ none
  pub no_github_id : find_by_github_id a.github_id db ≡ none
  pub no_session : any (λ s. s.user_id == a.id) db.sessions ≡ false
  pub no_notification : any (λ n. n.user_id == a.id) db.deploy_notifications ≡ false
  pub no_actor : any (by_actor a.github_login) db.audit_log ≡ false

rest-IsErased :
    (now : ℕ) (a : Account) (db db' : Db)
    → AreAccounts db
    → find (of_id a.id) db.users ≡ some a
    → a.github_login ≢ placeholder a.id
    → erase_rest now a.id a.github_login db ≡ ok db'
    → IsErased now a db'
unfolding find_by_id find_by_login find_by_github_id
rest-IsErased now a db db' h there named e =
    let (unique, same) = store-ok _ _ db' e in
    let others = others-Differ a.id a db.users h.unique there in
    rw same (record {
      shell = erased-find now a db.users there;
      no_id =
          ap found (gone _ now a.id a db.users (λ r. ground arith) (λ r k d. ground arith) others);
      no_login = ap found (
          gone _ now a.id a db.users (λ r. ground arith) (λ r k d. ground (arith, (d k).0)) others);
      no_github_id = ap found (
          gone _ now a.id a db.users (λ r. ground arith) (λ r k d. ground (arith, (d k).1)) others);
      no_session = any-keep-not (λ s. s.user_id == a.id) db.sessions;
      no_notification = any-keep-not (λ n. n.user_id == a.id) db.deploy_notifications;
      no_actor = rename-any a.github_login (placeholder a.id) db.audit_log named;
    })

found-unnamed :
    (q : Account → Bool) (a : Account) (name : Text) (rows : List Account)
    → any (λ r. r.github_login == name) rows ≡ false
    → find q rows ≡ some a
    → a.github_login ≢ name
found-unnamed q a name rows none_has there e =
    let free : (a.github_login == name) ≡ false =
      All-find (λ r. (r.github_login == name) ≡ false) q rows a
        (any-false (λ r. r.github_login == name) rows none_has) there in
    cc (free, (text_beq_iff a.github_login name).1 e)

found-positive :
    (q : Account → Bool) (a : Account) (db : Db)
    → AreAccounts db
    → find q db.users ≡ some a
    → 1 ≤ a.id
found-positive q a db h there = (All-find IsAccount q db.users a h.accounts there).positive

-- Where no login is the account's placeholder, in users or in reservations, the deletion of an
-- account succeeds: the row keeps its id, its times, the policy accepted and the image notified
-- last, and has no name, e-mail address, picture, token, permission or subdomain, nor GitHub's id and login; no reader finds it by id, login
-- or GitHub id, and it has no session, no notification, and no audit entry under the login.
pub soft_delete_user-IsErased :
    (now : ℕ) (a : Account) (db : Db)
    → AreAccounts db
    → find (of_id a.id) db.users ≡ some a
    → any (λ r. r.github_login == placeholder a.id) db.users ≡ false
    → any (of_login (placeholder a.id)) db.admission_reservations ≡ false
    → (db' : Db) × (soft_delete_user now a.id db ≡ ok db') × IsErased now a db'
unfolding soft_delete_user
soft_delete_user-IsErased now a db h there unnamed unreserved =
    let (mid, renamed, same, next) =
      rename_reservation-ok now a.id (to_lower a.github_login) db unreserved in
    let mid_h : AreAccounts mid = users_same db mid same next h in
    let (db', made) =
      erase_rest-ok now a.id a.github_login mid mid_h (found-positive (of_id a.id) a db h there)
        (rw same unnamed) in
    (
      db',
      rw (there, renamed) made,
      rest-IsErased now a mid db' mid_h (rw same there)
          (found-unnamed (of_id a.id) a (placeholder a.id) db.users unnamed there) made,
    )
