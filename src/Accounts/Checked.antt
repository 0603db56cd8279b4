-- ===== src/Accounts/Checked.antt =====
-- The operations whose statements the UNIQUE indexes check, and the deletions.
use swkoo_kr.Prelude.{
  ℕ, ◌+◌, ◌<◌, ◌≡◌, refl, sym, true, Option, none, some, [], ◌∷◌, ◌++◌, arith, inl, inr, Bool-cases,
  Option-cases, Result-cases, ok, any, find, update_where, subst, nat_eq,
}
use swkoo_kr.Prelude.Rows.{All-append_one, All-keep, All-map, AllPairs-append_one, AllPairs-keep}
use swkoo_kr.Prelude.Texts.{Text, to_lower}
use swkoo_kr.Prelude.Integers.{pos, int_beq_iff}
use swkoo_kr.Accounts.Db.{Db, Account, DbError}
use swkoo_kr.Accounts.Users.{
  UserUpsert, apart, store, of_id, of_github_id, of_lower_login, new_account, set_profile,
  upsert_user, set_subdomain,
}
use swkoo_kr.Accounts.Erasure.{
  placeholder, erased, soft_delete_user, hard_delete_old_users, rename_reservation, erase_rest,
}
use swkoo_kr.Accounts.Unique.{
  AreAccounts, IsAccount, Shape, github-live, store-ok, apart-keep, update-AreAccounts,
}
use swkoo_kr.Accounts.Steps.{users_same}

profile-IsAccount :
    (now : ℕ) (u : UserUpsert) (a : Account)
    → of_github_id (pos u.github_id) a ≡ true
    → IsAccount a
    → IsAccount (set_profile now u a)
profile-IsAccount now u a e k =
    let same : a.github_id ≡ pos u.github_id = (int_beq_iff a.github_id (pos u.github_id)).0 e in
    record {
      positive = k.positive;
      shape =
          subst (λ d. Shape d (set_profile now u a)) (sym (github-live a u.github_id same k))
            (u.github_id, same);
    }

insert-AreAccounts :
    (now : ℕ) (u : UserUpsert) (db : Db)
    → apart (db.users ++ new_account now db.next_user_id u ∷ []) ≡ true
    → AreAccounts db
    → AreAccounts (record db {
      users = db.users ++ new_account now db.next_user_id u ∷ [];
      next_user_id = db.next_user_id + 1;
    })
insert-AreAccounts now u db unique h = record {
  started = omega (arith, h.started);
  below =
      All-append_one (λ a. a.id < db.next_user_id + 1) db.users _
        (All-map _ _ db.users (λ a k. omega (arith, k)) h.below) (omega arith);
  grows = AllPairs-append_one (λ a b. a.id < b.id) db.users _ h.grows h.below;
  unique = unique;
  accounts =
      All-append_one IsAccount db.users _ h.accounts
        (record { positive = h.started; shape = (u.github_id, refl) });
}

pub upsert_user-AreAccounts :
    (now : ℕ) (u : UserUpsert) (db db' : Db)
    → upsert_user now u db ≡ ok db'
    → AreAccounts db
    → AreAccounts db'
unfolding upsert_user
upsert_user-AreAccounts now u db db' e h =
    elim (Bool-cases (any (of_github_id (pos u.github_id)) db.users)) [
      | inl t ↦
          let (unique, same) = store-ok _ db db' (rw t at e) in
          rw same (
            update-AreAccounts (of_github_id (pos u.github_id)) (set_profile now u) db (λ a. refl)
              (profile-IsAccount now u) unique h)
      | inr f ↦
          let (unique, same) =
            store-ok (db.users ++ new_account now db.next_user_id u ∷ [])
              (record db { next_user_id = db.next_user_id + 1 }) db' (rw f at e) in
          rw same (insert-AreAccounts now u db unique h)
    ]

claim-IsAccount :
    (subdomain : Option Text) (a : Account)
    → IsAccount a
    → IsAccount (record a { subdomain = subdomain })
claim-IsAccount subdomain a k = record {
  positive = k.positive;
  shape = claim_shape a.deleted_at k.shape;
}
  where
    claim_shape : (d : Option ℕ) → Shape d a → Shape d (record a { subdomain = subdomain })
    claim_shape none s = s
    claim_shape (some at) s = s

pub set_subdomain-AreAccounts :
    (login : Text) (subdomain : Option Text) (db : Db)
    → AreAccounts db
    → AreAccounts (set_subdomain login subdomain db).0
unfolding set_subdomain
set_subdomain-AreAccounts login subdomain db h =
    let p = of_lower_login login in
    let f : Account → Account = λ a. record a { subdomain = subdomain } in
    elim (Result-cases (store (update_where p f db.users) db)) [
      | inr (DbError.constraint_unique, e) ↦ rw e h
      | inl (db', e) ↦
          let (unique, same) = store-ok _ db db' e in
          let held : AreAccounts db' = rw same (
            update-AreAccounts p f db (λ a. refl) (λ a t k. claim-IsAccount subdomain a k) unique
              h) in
          elim (Bool-cases (any p db.users)) [ inl t ↦ rw (e, t) held | inr f ↦ rw (e, f) held ]
    ]

erased-IsAccount : (now : ℕ) (a : Account) → IsAccount a → IsAccount (erased now a)
erased-IsAccount now a k = record { positive = k.positive; shape = (refl, refl, refl, refl, refl) }

erase_rest-AreAccounts :
    (now user_id : ℕ) (login : Text) (db db' : Db)
    → erase_rest now user_id login db ≡ ok db'
    → AreAccounts db
    → AreAccounts db'
erase_rest-AreAccounts now user_id login db db' e h =
    let (unique, same) = store-ok _ _ db' e in
    rw same (
      users_same (record db { users = update_where (of_id user_id) (erased now) db.users }) _ refl
        refl
        (update-AreAccounts (of_id user_id) (erased now) db (λ a. refl)
          (λ a t k. erased-IsAccount now a k) unique h))

pub soft_delete_user-AreAccounts :
    (now user_id : ℕ) (db db' : Db)
    → soft_delete_user now user_id db ≡ ok db'
    → AreAccounts db
    → AreAccounts db'
unfolding soft_delete_user
soft_delete_user-AreAccounts now user_id db db' e h =
    elim (Option-cases (find (of_id user_id) db.users)) [
      | inl gone ↦ let same : db ≡ db' = cc (rw gone at e) in rw (← same) h
      | inr (a, there) ↦
          elim (Result-cases
            (rename_reservation (to_lower a.github_login) (placeholder user_id) db)) [
              | inr (x, refused) ↦ absurd (cc (rw (there, refused) at e))
              | inl (mid, renamed) ↦
                  erase_rest-AreAccounts now user_id a.github_login mid db'
                    (rw (there, renamed) at e)
                    (users_same db mid (ground (arith, renamed)) (ground (arith, renamed)) h)
            ]
    ]

pub hard_delete_old_users-AreAccounts :
    (cutoff : ℕ) (db : Db) → AreAccounts db → AreAccounts (hard_delete_old_users cutoff db).0
unfolding hard_delete_old_users
hard_delete_old_users-AreAccounts cutoff db h = record {
  started = h.started;
  below = All-keep _ _ db.users h.below;
  grows = AllPairs-keep _ _ db.users h.grows;
  unique = apart-keep _ db.users h.unique;
  accounts = All-keep IsAccount _ db.users h.accounts;
}
