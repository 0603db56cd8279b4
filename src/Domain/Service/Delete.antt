-- ===== src/Domain/Service/Delete.antt =====
-- `delete` of domain/domain.service.ts.
use swkoo_kr.Prelude.{Option, none, some, ◌++◌, if◌then◌else◌, nat_eq, Result, ok, err}
use swkoo_kr.Prelude.Texts.{Text, lit, text_eq}
use swkoo_kr.Domain.Repository.{
  CustomDomainRow, error, commit_failed, find_by_login_app, update_status, delete, is_truthy,
}
use swkoo_kr.Domain.CertCache
use swkoo_kr.Domain.Service.State.{
  State, World, App, thrown, no_meta, error_message, domain_delete_failed, domain_deleted,
  delete_stage, audited, notify_operator_of_failure,
}
use swkoo_kr.Domain.Service.Checks.{commit_custom_domain_ingress_remove}
use swkoo_kr.Domain.Service.Response.{Response, entry_for}
use swkoo_kr.Domain.Service.Info.{cert_namespace, cert_name}

-- A removal that GitHub refuses: the row stays, and the error is thrown again.
unfoldable pub removal_refused : World → CustomDomainRow → Text → State → Response (Unit {0})
unfolding notify_operator_of_failure
removal_refused w row message s =
    let (table, _) =
      update_status w.now row.id error
        (record {
          last_error = some (lit "삭제 커밋 실패: " ++ message);
          last_error_reason = none;
          verified_at = none;
        })
        s.table in
    (
      notify_operator_of_failure w
          (record {
            stage = delete_stage;
            actor = row.login;
            app_name = row.app_name;
            domain = row.domain;
            reason = commit_failed;
            last_error = some message;
          })
          (audited (entry_for row domain_delete_failed (some commit_failed) (error_message message))
            (record s { table = table })),
      err (thrown message),
    )

unfoldable pub drop_row : CustomDomainRow → State → Response (Unit {0})
drop_row row s = (
  audited (entry_for row domain_deleted none no_meta) (record s {
    table = delete row.id s.table;
    certs = CertCache.invalidate (cert_namespace row) (cert_name row) s.certs;
  }),
  ok tt,
)

abbrev removal_verdict : World → CustomDomainRow → Result Text Text → State → Response (Unit {0})
removal_verdict w row (ok sha) s = drop_row row s
removal_verdict w row (err message) s = removal_refused w row message s

abbrev delete_row : World → Option CustomDomainRow → State → Response (Unit {0})
delete_row w none s = (s, ok tt)
delete_row w (some row) s =
    if is_truthy row.applied_commit
    then removal_verdict w row (commit_custom_domain_ingress_remove w row) s
    else drop_row row s

-- `delete`
unfoldable pub delete_domain : World → App → State → Response (Unit {0})
unfolding removal_refused drop_row
delete_domain w app s = delete_row w (find_by_login_app app.login app.app_name s.table) s
