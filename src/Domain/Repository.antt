-- ===== src/Domain/Repository.antt =====
-- domain/domain.repository.ts: the table `custom_domains`. A timestamp is its milliseconds.
pub mod Unique
pub mod Current
use swkoo_kr.Prelude.{
  ℕ, ◌+◌, Bool, true, false, ◌&&◌, ◌||◌, Option, none, some, List, [], ◌∷◌, ◌++◌, if◌then◌else◌,
  ◌==◌, nat_eq, Result, ok, err, coalesce, find, keep, update_where, any, not, length, ◌-◌,
}
use swkoo_kr.Prelude.Texts.{Text, text_eq}

pub data CustomDomainStatus : Type 0 where
  pending verified applying active error : CustomDomainStatus

pub data VerificationScheme : Type 0 where
  txt_cname cname_token : VerificationScheme

-- The machine reasons of a failed verification, and of a failed commit (in audit entries only).
pub data FailureReason : Type 0 where
  dns_txt_not_found dns_txt_error dns_txt_mismatch dns_cname_not_found dns_cname_error :
      FailureReason
  dns_cname_mismatch dns_cname_conflicts_with_a commit_failed : FailureReason

pub record CustomDomainRow : Type 0 where
  pub id : ℕ
  pub user_id : ℕ
  pub login : Text
  pub app_name : Text
  pub domain : Text
  pub status : CustomDomainStatus
  pub scheme : VerificationScheme
  pub verification_token : Text
  pub expected_cname : Text
  pub applied_commit : Option Text
  pub verified_at : Option ℕ
  pub last_error : Option Text
  pub last_error_reason : Option FailureReason
  pub created_at : ℕ
  pub updated_at : ℕ

pub record CreateCustomDomainInput : Type 0 where
  pub user_id : ℕ
  pub login : Text
  pub app_name : Text
  pub domain : Text
  pub scheme : VerificationScheme
  pub verification_token : Text
  pub expected_cname : Text

-- The rows in the order of their ids, and the next id of AUTOINCREMENT, which reuses none.
pub record Table : Type 0 where
  pub rows : List CustomDomainRow
  pub next_id : ℕ

-- The row that a statement's WHERE clause names.
abbrev pub of_app : Text → Text → CustomDomainRow → Bool
of_app login app_name r = r.login == login && r.app_name == app_name

abbrev pub of_domain : Text → CustomDomainRow → Bool
of_domain domain r = r.domain == domain

abbrev pub of_id : ℕ → CustomDomainRow → Bool
of_id id r = r.id == id

abbrev pub of_login : Text → CustomDomainRow → Bool
of_login login r = r.login == login

abbrev pub of_user_app : ℕ → Text → CustomDomainRow → Bool
of_user_app user_id app_name r = r.user_id == user_id && r.app_name == app_name

unfoldable pub find_by_login_app : Text → Text → Table → Option CustomDomainRow
find_by_login_app login app_name t = find (of_app login app_name) t.rows

unfoldable pub find_by_domain : Text → Table → Option CustomDomainRow
find_by_domain domain t = find (of_domain domain) t.rows

-- A string is truthy if it is not empty.
abbrev pub is_truthy : Option Text → Bool
is_truthy none = false
is_truthy (some []) = false
is_truthy (some (c ∷ s)) = true

abbrev pub in_active_phase : CustomDomainStatus → Bool
in_active_phase applying = true
in_active_phase active = true
in_active_phase _ = false

abbrev for_render : Option CustomDomainRow → Option CustomDomainRow
for_render none = none
for_render (some row) =
    if in_active_phase row.status
    then some row
    else if is_truthy row.applied_commit
    then some row
    else none

unfoldable pub find_for_render : Text → Text → Table → Option CustomDomainRow
find_for_render login app_name t = for_render (find_by_login_app login app_name t)

-- The two UNIQUE indexes refuse the row (SQLITE_CONSTRAINT_UNIQUE).
pub data DbError : Type 0 where
  constraint_unique : DbError

abbrev pub new_row : ℕ → ℕ → CreateCustomDomainInput → CustomDomainRow
new_row now id i = record {
  id = id;
  user_id = i.user_id;
  login = i.login;
  app_name = i.app_name;
  domain = i.domain;
  status = pending;
  scheme = i.scheme;
  verification_token = i.verification_token;
  expected_cname = i.expected_cname;
  applied_commit = none;
  verified_at = none;
  last_error = none;
  last_error_reason = none;
  created_at = now;
  updated_at = now;
}

abbrev pub with_row : Table → CustomDomainRow → Table
with_row t row = record { rows = t.rows ++ row ∷ []; next_id = t.next_id + 1 }

-- The two UNIQUE indexes have an entry for the new row.
abbrev pub clashes : CreateCustomDomainInput → Table → Bool
clashes i t = any (of_domain i.domain) t.rows || any (of_user_app i.user_id i.app_name) t.rows

unfoldable pub create :
    ℕ → CreateCustomDomainInput → Table → Result DbError (Table × CustomDomainRow)
create now i t =
    if clashes i t
    then err constraint_unique
    else ok (with_row t (new_row now t.next_id i), new_row now t.next_id i)

-- The third argument of `updateStatus`; what is absent is null.
pub record StatusChange : Type 0 where
  pub last_error : Option Text
  pub last_error_reason : Option FailureReason
  pub verified_at : Option ℕ

abbrev pub no_change : StatusChange
no_change = record { last_error = none; last_error_reason = none; verified_at = none }

-- The SET clause of `updateStatus`.
unfoldable pub set_status :
    ℕ → CustomDomainStatus → StatusChange → CustomDomainRow → CustomDomainRow
set_status now status c r = record r {
  status = status;
  last_error = coalesce c.last_error r.last_error;
  last_error_reason = coalesce c.last_error_reason r.last_error_reason;
  verified_at = coalesce c.verified_at r.verified_at;
  updated_at = now;
}

abbrev pub update_row : ℕ → (CustomDomainRow → CustomDomainRow) → Table → Table
update_row id f t = record t { rows = update_where (of_id id) f t.rows }

-- `UPDATE … WHERE id = ? RETURNING …`
abbrev pub returning : ℕ → Table → Table × Option CustomDomainRow
returning id t = (t, find (of_id id) t.rows)

unfoldable pub update_status :
    ℕ → ℕ → CustomDomainStatus → StatusChange → Table → Table × Option CustomDomainRow
unfolding set_status
update_status now id status c t = returning id (update_row id (set_status now status c) t)

unfoldable pub set_applied : ℕ → Text → CustomDomainRow → CustomDomainRow
set_applied now sha r = record r { applied_commit = some sha; updated_at = now }

unfoldable pub mark_applied : ℕ → ℕ → Text → Table → Table × Option CustomDomainRow
unfolding set_applied
mark_applied now id sha t = returning id (update_row id (set_applied now sha) t)

unfoldable pub set_no_error : ℕ → CustomDomainRow → CustomDomainRow
set_no_error now r = record r { last_error = none; last_error_reason = none; updated_at = now }

unfoldable pub clear_error : ℕ → ℕ → Table → Table
unfolding set_no_error
clear_error now id t = update_row id (set_no_error now) t

unfoldable pub delete : ℕ → Table → Table
delete id t = record t { rows = keep (λ r. not (of_id id r)) t.rows }

unfoldable pub find_by_login : Text → Table → List CustomDomainRow
find_by_login login t = keep (of_login login) t.rows

-- The table that is left, and `info.changes`.
unfoldable pub delete_by_login : Text → Table → Table × ℕ
delete_by_login login t =
    let rest = keep (λ r. not (of_login login r)) t.rows in
    (record t { rows = rest }, length t.rows - length rest)
