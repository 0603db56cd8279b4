-- ===== src/Domain/Service/Removal.antt =====
-- What `delete` leaves: nothing of the row, or all of it with the error.
use swkoo_kr.Prelude.{
  false, ◌⊎◌, ◌≡◌, ◌≢◌, refl, ap, Bool, true, not, none, some, ◌++◌, arith, inl, inr, Bool-cases,
  ok, err, find, All,
}
use swkoo_kr.Prelude.Rows.{find-keep-none_at, find-keep_at, All-map}
use swkoo_kr.Prelude.Texts.{Text, lit, text_beq_iff}
use swkoo_kr.Domain.Repository.{
  CustomDomainRow, Table, StatusChange, error, of_app, of_id, of_domain, find_by_login_app,
  find_by_domain, delete, is_truthy, set_status, update_status,
}
use swkoo_kr.Domain.Repository.Unique.{set_status-KeepsKeys}
use swkoo_kr.Domain.Repository.Current.{key_unique, find-key, app-excludes, domain-excludes}
use swkoo_kr.Domain.Service.State.{State, World, App, thrown}
use swkoo_kr.Domain.Service.Checks.{commit_custom_domain_ingress_remove}
use swkoo_kr.Domain.Service.Delete.{delete_domain, drop_row, removal_refused}
use swkoo_kr.Domain.Service.Sound.{IsSound}
use swkoo_kr.Domain.Service.Sound.Requests.{notify-table}
use swkoo_kr.Domain.Service.Outcome.{Has-update_row}

-- A key that only the row has is free once the row is deleted.
delete-key :
    (q : CustomDomainRow → Bool) (t : Table) (row : CustomDomainRow)
    → All (λ r. q r ≡ true → r ≡ row) t.rows
    → find q (delete row.id t).rows ≡ none
unfolding delete
delete-key q t row unique =
    find-keep-none_at q (λ r. not (of_id row.id r)) t.rows
      (All-map _ _ t.rows
        (λ r only stays. elim (Bool-cases (q r)) [
          | inl m ↦ absurd (ground (arith, ap (λ (x : CustomDomainRow). x.id) (only m)))
          | inr u ↦ u
        ])
        unique)

-- A row under another id is found as before.
delete-other :
    (q : CustomDomainRow → Bool) (t : Table) (row other : CustomDomainRow)
    → All (λ r. q r ≡ true → r ≡ other) t.rows
    → other.id ≢ row.id
    → find q (delete row.id t).rows ≡ find q t.rows
unfolding delete
delete-other q t row other unique differs =
    find-keep_at q (λ r. not (of_id row.id r)) t.rows
      (All-map _ _ t.rows
        (λ r only m. ground (arith, ap (λ (x : CustomDomainRow). x.id) (only m), differs)) unique)

abbrev pub removal_change : Text → StatusChange
removal_change message = record {
  last_error = some (lit "삭제 커밋 실패: " ++ message);
  last_error_reason = none;
  verified_at = none;
}

-- There is no commit to take back, or GitHub takes it back.
unfoldable pub MayRemove : World → CustomDomainRow → Type 0
MayRemove w row =
    (is_truthy row.applied_commit ≡ false)
    ⊎ ((sha : Text) × (commit_custom_domain_ingress_remove w row ≡ ok sha))

delete-ok :
    (w : World) (app : App) (row : CustomDomainRow) (s : State)
    → find_by_login_app app.login app.app_name s.table ≡ some row
    → MayRemove w row
    → delete_domain w app s ≡ drop_row row s
unfolding delete_domain MayRemove
delete-ok w app row s found (inl plain) = rw (found, plain) refl
delete-ok w app row s found (inr (sha, c)) = elim (Bool-cases (is_truthy row.applied_commit)) [
  | inr plain ↦ rw (found, plain) refl
  | inl landed ↦ rw (found, landed, c) refl
]

-- A removal for which there is no commit to take back, or whose commit GitHub makes, succeeds, and
-- leaves neither the app's row nor any row with its domain: the app may register again, and the
-- domain is free for everyone.
pub delete_domain-frees :
    (w : World) (app : App) (row : CustomDomainRow) (s : State)
    → IsSound s
    → find_by_login_app app.login app.app_name s.table ≡ some row
    → MayRemove w row
    → ((delete_domain w app s).1 ≡ ok tt)
      × (find_by_login_app app.login app.app_name (delete_domain w app s).0.table ≡ none)
      × (find_by_domain row.domain (delete_domain w app s).0.table ≡ none)
unfolding find_by_login_app find_by_domain drop_row
delete_domain-frees w app row s h found may =
    let by_app =
      key_unique (of_app app.login app.app_name) s.table row (app-excludes app.login app.app_name)
        h.table found in
    let by_domain =
      key_unique (of_domain row.domain) s.table row (domain-excludes row.domain) h.table (
        find-key _ (of_domain row.domain) s.table.rows row (domain-excludes row.domain)
          h.table.apart found ((text_beq_iff row.domain row.domain).1 refl)) in
    rw (delete-ok w app row s found may)
      (refl, delete-key _ s.table row by_app, delete-key _ s.table row by_domain)

-- A removal whose commit GitHub refuses is an error for the caller, and keeps the row with its
-- commit: status and message change, and the machine reason stays the one of an earlier failure.
pub delete_domain-refused :
    (w : World) (app : App) (row : CustomDomainRow) (s : State) (message : Text)
    → IsSound s
    → find_by_login_app app.login app.app_name s.table ≡ some row
    → is_truthy row.applied_commit ≡ true
    → commit_custom_domain_ingress_remove w row ≡ err message
    → ((delete_domain w app s).1 ≡ err (thrown message))
      × (find_by_login_app app.login app.app_name (delete_domain w app s).0.table
          ≡ some (record row {
            status = error;
            last_error = some (lit "삭제 커밋 실패: " ++ message);
            updated_at = w.now;
          }))
unfolding delete_domain removal_refused find_by_login_app update_status set_status
delete_domain-refused w app row s message h found landed c = (
  rw (found, landed, c),
  rw (found, landed, c, notify-table)
      (Has-update_row app s.table row (set_status w.now error (removal_change message))
        (set_status-KeepsKeys w.now error (removal_change message))
        (record { table = h.table; found = found })).found,
)
