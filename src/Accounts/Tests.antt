-- ===== src/Accounts/Tests.antt =====
-- The accounts' theorems at concrete inputs: ann and bob sign in, ann's account is deleted, and
-- cleaned up.
mod Saving
use swkoo_kr.Prelude.{
  ℕ, ◌+◌, ◌-◌, ◌≡◌, refl, true, false, none, some, [], ◌∷◌, map, arith, Result, ok, err, ◌==◌,
  nat_eq, ◌&&◌, all, any, find, ltb,
}
use swkoo_kr.Prelude.Texts.{Text, lit, text_eq, text_beq, to_lower, lower_unit, split, join}
use swkoo_kr.Prelude.Integers.{ℤ, digits}
use swkoo_kr.Accounts.Db.{Db, DbError, Account}
use swkoo_kr.Accounts.Users.{
  UserUpsert, upsert_user, store, apart, of_id, audit, find_by_id, find_by_login, find_by_github_id,
}
use swkoo_kr.Accounts.Sessions.{create_session, has_session, revoke_session, seconds}
use swkoo_kr.Accounts.Erasure.{
  placeholder, soft_delete_user, hard_delete_old_users, is_old, by_actor,
}
use swkoo_kr.Accounts.Cipher.{Gcm, encrypt, decrypt}
use swkoo_kr.Accounts.Unique.{AreAccounts}
use swkoo_kr.Accounts.Reach.{
  empty_db, Reaches, start, then_step, signed_in, soft_deleted, others, Reaches-AreAccounts,
}
use swkoo_kr.Accounts.Forgets.{IsErased, soft_delete_user-IsErased}
use swkoo_kr.Accounts.Retention.{hard_delete_old_users-forgets}
use swkoo_kr.Accounts.Access.{create_session-lets_in}
use swkoo_kr.Accounts.Secrets.{IsCipher, not_colon, decrypt-encrypt}

unfoldable pub run : Unit {0}
unfolding lit text_beq to_lower lower_unit split join digits upsert_user store apart audit
    find_by_id find_by_login find_by_github_id create_session has_session revoke_session placeholder
    soft_delete_user hard_delete_old_users
run = tt

abbrev ann_id : ℕ
ann_id = 1

abbrev profile : ℕ → Text → UserUpsert
profile github_id login = record {
  github_id = github_id;
  github_login = login;
  name = none;
  email = some (lit "a@b.kr");
  avatar_url = none;
}

abbrev or_empty : Result DbError Db → Db
or_empty (ok db) = db
or_empty (err e) = empty_db

abbrev one : Db
one = or_empty (upsert_user 1000 (profile 71 (lit "Ann")) empty_db)

abbrev two : Db
two = or_empty (upsert_user 2000 (profile 72 (lit "bob")) one)

-- Ann has signed in, and done something.
abbrev pub busy : Db
busy =
    audit 3000
      (record {
        actor = lit "Ann";
        action = lit "X";
        target = none;
        reason = none;
        meta_json = none;
      })
      (create_session 3000 (lit "s") 1 99 two).0

abbrev deleted : Db
deleted = or_empty (soft_delete_user 4000 1 busy)

abbrev pub ann : Account
ann = record {
  id = 1;
  github_id = ℤ.pos 71;
  github_login = lit "Ann";
  name = none;
  email = some (lit "a@b.kr");
  avatar_url = none;
  created_at = 1000;
  last_login_at = 1000;
  access_token = none;
  refresh_token = none;
  token_expires_at = none;
  is_allowed = false;
  deleted_at = none;
  policy_version = none;
  policy_accepted_at = none;
  subdomain = none;
  last_notified_image_sha = none;
}

abbrev shell : Account
shell = record ann {
  github_id = ℤ.negsuc 0;
  github_login = lit "deleted_1";
  email = none;
  deleted_at = some 4000;
}

tests :
    (find (of_id 1) busy.users ≡ some ann)
    × (find (of_id 1) deleted.users ≡ some shell)
    × (has_session 50000 (lit "s") 1 busy ≡ true)
    × (has_session 99000 (lit "s") 1 busy ≡ false)
    × (has_session 50000 (lit "s") 1 deleted ≡ false)
    × (any (by_actor (lit "deleted_1")) deleted.audit_log ≡ true)
    × ((hard_delete_old_users 4001 deleted).1 ≡ 1)
    × ((hard_delete_old_users 4000 deleted).1 ≡ 0)
    × (upsert_user 5000 (profile 73 (lit "bob")) two ≡ err DbError.constraint_unique)
unfolding run
tests = (refl, refl, refl, refl, refl, refl, refl, refl, refl)

busy-Reaches : Reaches empty_db busy
unfolding run
busy-Reaches =
    then_step
      (then_step (then_step start (signed_in 1000 (profile 71 (lit "Ann")) empty_db one refl))
        (signed_in 2000 (profile 72 (lit "bob")) one two refl))
      (others two busy refl refl)

deleted-Reaches : Reaches empty_db deleted
unfolding run
deleted-Reaches = then_step busy-Reaches (soft_deleted 4000 1 busy deleted refl)

Reaches-AreAccounts_example : AreAccounts deleted
Reaches-AreAccounts_example = Reaches-AreAccounts deleted-Reaches

busy-AreAccounts : AreAccounts busy
busy-AreAccounts = Reaches-AreAccounts busy-Reaches

soft_delete_user-IsErased_example :
    (db' : Db) × (soft_delete_user 4000 1 busy ≡ ok db') × IsErased 4000 ann db'
unfolding run
soft_delete_user-IsErased_example =
    soft_delete_user-IsErased 4000 ann busy busy-AreAccounts refl refl refl

hard_delete_old_users-forgets_example :
    (any (is_old 4001) (hard_delete_old_users 4001 deleted).0.users ≡ false)
    × (any (by_actor (placeholder 1)) (hard_delete_old_users 4001 deleted).0.audit_log ≡ false)
    × (find_by_id 2 (hard_delete_old_users 4001 deleted).0 ≡ find_by_id 2 deleted)
unfolding run
hard_delete_old_users-forgets_example = hard_delete_old_users-forgets 4001 shell 2 deleted refl refl

create_session-lets_in_example :
    ((create_session 3000 (lit "t") 1 99 busy).1 ≡ ok tt)
    × (has_session 98999 (lit "t") 1 (create_session 3000 (lit "t") 1 99 busy).0
        ≡ (ann_id == ann_id && ltb (seconds 98999) 99))
    × (has_session 98999
          (lit "t")
          1
          (revoke_session (lit "t") (create_session 3000 (lit "t") 1 99 busy).0)
        ≡ false)
unfolding run
create_session-lets_in_example = create_session-lets_in 3000 98999 1 1 99 (lit "t") busy refl

-- A cipher that moves each unit past the colon.
abbrev pub toy : Gcm
toy = record {
  seal = λ v c. record { nonce = lit "n"; tag = lit "t"; encrypted = map (λ x. x + 59) v };
  open_sealed = λ s c. ok (map (λ x. x - 59) s.encrypted);
}

shifted-not_colon : (v : Text) → all not_colon (map (λ x. x + 59) v) ≡ true
shifted-not_colon [] = refl
shifted-not_colon (x ∷ v) = ground (arith, shifted-not_colon v)

shifted-filled : (v : Text) → (v == []) ≡ false → (map (λ x. x + 59) v == []) ≡ false
unfolding text_beq
shifted-filled [] e = e
shifted-filled (x ∷ v) e = refl

shifted-back : (v : Text) → map (λ x. x - 59) (map (λ x. x + 59) v) ≡ v
shifted-back [] = refl
shifted-back (x ∷ v) = ground (arith, shifted-back v)

pub toy-IsCipher : IsCipher toy
unfolding run
toy-IsCipher = record {
  nonce = λ v c. refl;
  tag = λ v c. refl;
  encrypted = λ v c. shifted-not_colon v;
  has_nonce = λ v c. refl;
  has_tag = λ v c. refl;
  has_text = λ v c. shifted-filled v;
  opens = λ v c. cc (shifted-back v);
}

decrypt-encrypt_example :
    decrypt toy (encrypt toy (lit "gho_x") (lit "1:access_token")) (lit "1:access_token")
    ≡ ok (lit "gho_x")
unfolding run
decrypt-encrypt_example = decrypt-encrypt toy (lit "gho_x") (lit "1:access_token") toy-IsCipher refl
