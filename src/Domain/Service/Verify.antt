-- ===== src/Domain/Service/Verify.antt =====
-- `verify` of domain/domain.service.ts.
use swkoo_kr.Prelude.{
  ℕ, ◌+◌, ◌-◌, ◌/◌, Bool, false, ◌&&◌, not, Option, none, some, ◌++◌, ltb, if◌then◌else◌, ◌==◌,
  nat_eq, or_else, Result, ok, err,
}
use swkoo_kr.Prelude.Texts.{Text, lit, text_eq}
use swkoo_kr.Prelude.Maps.{lookup, insert}
use swkoo_kr.Domain.Repository.{
  StatusChange, CustomDomainRow, verified, applying, error, commit_failed, Table, find_by_login_app,
  no_change, update_status, mark_applied, clear_error, in_active_phase,
}
use swkoo_kr.Domain.Service.State.{
  State, World, App, domain_not_registered, domain_verify_cooldown, no_meta, commit_sha,
  error_message, domain_verify_failed, domain_verified, domain_commit_failed, verify_stage,
  commit_stage, audited, notify_operator_of_failure,
}
use swkoo_kr.Domain.Service.Checks.{DnsFailure, check_dns, commit_custom_domain_ingress}
use swkoo_kr.Domain.Service.Response.{Response, respond, entry_for}
use swkoo_kr.Domain.Service.Info.{DomainInfo, to_info}

abbrev pub verify_cooldown_ms : ℕ
verify_cooldown_ms = 30000

abbrev pub cooldown_key : CustomDomainRow → Text
cooldown_key row = row.login ++ (lit "|" ++ (row.app_name ++ (lit "|" ++ row.domain)))

-- `lastAt && now - lastAt < VERIFY_COOLDOWN_MS`; a time of 0 is falsy.
abbrev pub is_cooling : ℕ → Option ℕ → Bool
is_cooling now none = false
is_cooling now (some last_at) = not (last_at == 0) && ltb now (last_at + verify_cooldown_ms)

-- `Math.ceil((VERIFY_COOLDOWN_MS - (now - lastAt)) / 1000)`, of a positive number of milliseconds
unfoldable pub retry_after_sec : ℕ → ℕ → ℕ
retry_after_sec now last_at = (last_at + verify_cooldown_ms - now + 999) / 1000

-- A failed DNS check.
unfoldable pub dns_failed : World → CustomDomainRow → DnsFailure → State → Response DomainInfo
unfolding notify_operator_of_failure
dns_failed w row e s =
    let (table, errored) =
      update_status w.now row.id error
        (record {
          last_error = some e.message;
          last_error_reason = some e.reason;
          verified_at = none;
        })
        s.table in
    respond (
      to_info w (or_else errored row) (
        notify_operator_of_failure w
          (record {
            stage = verify_stage;
            actor = row.login;
            app_name = row.app_name;
            domain = row.domain;
            reason = e.reason;
            last_error = some e.message;
          })
          (audited (entry_for row domain_verify_failed (some e.reason) no_meta)
            (record s { table = table }))))

abbrev pub proved_at : ℕ → StatusChange
proved_at now = record { last_error = none; last_error_reason = none; verified_at = some now }

-- `clearError`, and the step to verified.
unfoldable pub promote : World → CustomDomainRow → Table → Table
promote w row table =
    (update_status w.now row.id verified (proved_at w.now) (clear_error w.now row.id table)).0

unfoldable pub committed : World → CustomDomainRow → Text → State → Response DomainInfo
committed w row sha s =
    let (marked, _) = mark_applied w.now row.id sha s.table in
    let (table, updated) = update_status w.now row.id applying no_change marked in
    respond (
      to_info w (or_else updated row) (
        audited (entry_for row domain_verified none (commit_sha sha)) (record s { table = table })))

unfoldable pub commit_refused : World → CustomDomainRow → Text → State → Response DomainInfo
unfolding notify_operator_of_failure
commit_refused w row message s =
    let (table, errored) =
      update_status w.now row.id error
        (record {
          last_error = some (lit "manifest 커밋 실패: " ++ message);
          last_error_reason = none;
          verified_at = none;
        })
        s.table in
    respond (
      to_info w (or_else errored row) (
        notify_operator_of_failure w
          (record {
            stage = commit_stage;
            actor = row.login;
            app_name = row.app_name;
            domain = row.domain;
            reason = commit_failed;
            last_error = some message;
          })
          (audited (entry_for row domain_commit_failed (some commit_failed) (error_message message))
            (record s { table = table }))))

abbrev commit_verdict : World → CustomDomainRow → Result Text Text → State → Response DomainInfo
commit_verdict w row (ok sha) s = committed w row sha s
commit_verdict w row (err message) s = commit_refused w row message s

abbrev dns_verdict : World → CustomDomainRow → Option DnsFailure → State → Response DomainInfo
dns_verdict w row (some e) s = dns_failed w row e s
dns_verdict w row none s =
    commit_verdict w row (commit_custom_domain_ingress w row)
      (record s { table = promote w row s.table })

unfoldable pub attempt : World → CustomDomainRow → State → Response DomainInfo
unfolding dns_failed promote committed commit_refused
attempt w row s =
    dns_verdict w row (check_dns w row)
      (record s { last_verify_attempt = insert (cooldown_key row) w.now s.last_verify_attempt })

abbrev verify_row : World → Option CustomDomainRow → State → Response DomainInfo
verify_row w none s = (s, err domain_not_registered)
verify_row w (some row) s =
    let last_at = lookup (cooldown_key row) s.last_verify_attempt in
    if in_active_phase row.status
    then respond (to_info w row s)
    else if is_cooling w.now last_at
    then (s, err (domain_verify_cooldown (retry_after_sec w.now (or_else last_at 0))))
    else attempt w row s

-- `verify`
unfoldable pub verify : World → App → State → Response DomainInfo
unfolding attempt
verify w app s = verify_row w (find_by_login_app app.login app.app_name s.table) s
