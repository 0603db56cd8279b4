-- ===== src/Domain/Service/Outcome/Verified.antt =====
-- The row that `verify` leaves, on each of its branches, and what an applied row proves.
use swkoo_kr.Prelude.{some-eq}
use swkoo_kr.Prelude.{
  ℕ, ◌≡◌, refl, sym, ap, ◌∙◌, Bool, true, false, Option, none, some, arith, inl, inr, Bool-cases,
  Option-cases, Result-cases, or_else, Result, ok, err,
}
use swkoo_kr.Prelude.Texts.{Text}
use swkoo_kr.Prelude.Maps.{lookup}
use swkoo_kr.Domain.Repository.{
  CustomDomainRow, applying, error, StatusChange, no_change, verified, Table, update_status,
  mark_applied, clear_error, find_by_login_app, in_active_phase, set_status, set_applied,
  set_no_error,
}
use swkoo_kr.Domain.Repository.Unique.{
  set_status-KeepsKeys, set_applied-KeepsKeys, set_no_error-KeepsKeys,
}
use swkoo_kr.Domain.Service.State.{State, World, App}
use swkoo_kr.Domain.Service.Checks.{DnsFailure, check_dns, commit_custom_domain_ingress}
use swkoo_kr.Domain.Service.Info.{to_info}
use swkoo_kr.Domain.Service.Verify.{
  verify, attempt, dns_failed, committed, commit_refused, promote, proved_at, is_cooling,
  cooldown_key,
}
use swkoo_kr.Domain.Service.Sound.{IsSound}
use swkoo_kr.Domain.Service.Sound.Requests.{notify-table}
use swkoo_kr.Domain.Service.Outcome.{
  failure_of, refusal_of, promoted, applied, Has, Has-update_row, Has-returning, Has-to_info,
  cert_ready, settled,
}

-- The row that a verification makes of a row, from the two answers that it asks for and the
-- certificate's state: a failed check, a refused commit, or an applied domain.
abbrev pub verdict_row :
    ℕ → Bool → CustomDomainRow → Option DnsFailure → Result Text Text → CustomDomainRow
verdict_row now ready row (some e) _ = set_status now error (failure_of e) row
verdict_row now ready row none (err message) =
    set_status now error (refusal_of message) (promoted now row)
verdict_row now ready row none (ok sha) = settled now ready (applied now sha row)

-- `toInfo` at the end of a branch that leaves `row` with an error in the table of `t`.
error-Has :
    (app : App) (w : World) (row d : CustomDomainRow) (c : StatusChange) (s t : State)
    → Has app s.table row
    → t.table ≡ (update_status w.now row.id error c s.table).0
    → Has app
        (to_info w (or_else (update_status w.now row.id error c s.table).1 d) t).0.table
        (set_status w.now error c row)
unfolding update_status set_status
error-Has app w row d c s t h e =
    let keeps = set_status-KeepsKeys w.now error c in
    let kept : Has app t.table (set_status w.now error c row) =
      rw e (Has-update_row app s.table row _ keeps h) in
    rw (Has-returning app s.table row _ keeps h)
      (Has-to_info app w (set_status w.now error c row) t kept)

dns_failed-Has :
    (app : App) (w : World) (row : CustomDomainRow) (e : DnsFailure) (s : State)
    → Has app s.table row
    → Has app (dns_failed w row e s).0.table (set_status w.now error (failure_of e) row)
unfolding dns_failed
dns_failed-Has app w row e s h = error-Has app w row row _ s _ h (notify-table w _ _)

promote-Has :
    (app : App) (w : World) (row : CustomDomainRow) (t : Table)
    → Has app t row
    → Has app (promote w row t) (promoted w.now row)
unfolding promote clear_error update_status set_no_error
promote-Has app w row t h =
    Has-update_row app _ (set_no_error w.now row) _
      (set_status-KeepsKeys w.now verified (proved_at w.now))
      (Has-update_row app t row _ (set_no_error-KeepsKeys w.now) h)

commit_refused-Has :
    (app : App) (w : World) (row : CustomDomainRow) (message : Text) (s : State)
    → Has app s.table (promoted w.now row)
    → Has app
        (commit_refused w row message s).0.table
        (set_status w.now error (refusal_of message) (promoted w.now row))
unfolding commit_refused set_status set_no_error
commit_refused-Has app w row message s h =
    error-Has app w (promoted w.now row) row _ s _ h (notify-table w _ _)

applied-Has :
    (app : App) (w : World) (row : CustomDomainRow) (sha : Text) (s : State)
    → Has app s.table (promoted w.now row)
    → Has app
        (committed w row sha s).0.table
        (settled w.now (cert_ready w row s) (applied w.now sha row))
unfolding set_status set_no_error committed mark_applied update_status set_applied
applied-Has app w row sha s h =
    let keeps = set_status-KeepsKeys w.now applying no_change in
    let marked =
      Has-update_row app s.table (promoted w.now row) _ (set_applied-KeepsKeys w.now sha) h in
    rw (Has-returning app _ (set_applied w.now sha (promoted w.now row)) _ keeps marked) (
      Has-to_info app w (applied w.now sha row) _
        (Has-update_row app _ (set_applied w.now sha (promoted w.now row)) _ keeps marked))

attempt-Has :
    (app : App) (w : World) (row : CustomDomainRow) (s : State)
    → Has app s.table row
    → Has app (attempt w row s).0.table (
        verdict_row w.now
          (cert_ready w row s)
          row
          (check_dns w row)
          (commit_custom_domain_ingress w row))
unfolding attempt
attempt-Has app w row s h = elim (Option-cases (check_dns w row)) [
  | inr (e, failed) ↦ rw failed (dns_failed-Has app w row e _ h)
  | inl proved ↦
      let mid = promote-Has app w row s.table h in
      rw proved (elim (Result-cases (commit_custom_domain_ingress w row)) [
        | inl (sha, e) ↦ rw e (applied-Has app w row sha _ mid)
        | inr (message, e) ↦ rw e (commit_refused-Has app w row message _ mid)
      ])
]

verify-Has :
    (app : App) (w : World) (row : CustomDomainRow) (s : State)
    → Has app s.table row
    → in_active_phase row.status ≡ false
    → is_cooling w.now (lookup (cooldown_key row) s.last_verify_attempt) ≡ false
    → Has app (verify w app s).0.table (
        verdict_row w.now
          (cert_ready w row s)
          row
          (check_dns w row)
          (commit_custom_domain_ingress w row))
unfolding verify find_by_login_app
verify-Has app w row s h work free = rw (h.found, work, free) (attempt-Has app w row s h)

-- A verification that runs (the row is neither applying nor active, and the cooldown is over)
-- leaves the app the row that the DNS check, the commit and the certificate's state determine.
pub verify-verdict_row :
    (app : App) (w : World) (row : CustomDomainRow) (s : State)
    → IsSound s
    → find_by_login_app app.login app.app_name s.table ≡ some row
    → in_active_phase row.status ≡ false
    → is_cooling w.now (lookup (cooldown_key row) s.last_verify_attempt) ≡ false
    → find_by_login_app app.login app.app_name (verify w app s).0.table
      ≡ some (
          verdict_row w.now
            (cert_ready w row s)
            row
            (check_dns w row)
            (commit_custom_domain_ingress w row))
unfolding find_by_login_app
verify-verdict_row app w row s h e work free =
    (verify-Has app w row s (record { table = h.table; found = e }) work free).found

-- What has to have happened for a row to be applied.
pub record IsProved (w : World) (row after : CustomDomainRow) : Type 0 where
  pub dns : check_dns w row ≡ none
  pub sha : Text
  pub commit : commit_custom_domain_ingress w row ≡ ok sha
  pub recorded : after.applied_commit ≡ some sha

verdict_proves :
    (now : ℕ) (ready : Bool) (row : CustomDomainRow) (d : Option DnsFailure) (c : Result Text Text)
    → in_active_phase (verdict_row now ready row d c).status ≡ true
    → (d ≡ none)
      × ((sha : Text) × (c ≡ ok sha) × ((verdict_row now ready row d c).applied_commit ≡ some sha))
unfolding set_status set_applied set_no_error
verdict_proves now ready row (some e) c h = absurd (cc)
verdict_proves now ready row none (err message) h = absurd (cc)
verdict_proves now ready row none (ok sha) h = (refl, (sha, refl, ground arith))

-- While the cooldown lasts, nothing is written.
cooling_keeps :
    (app : App) (w : World) (row : CustomDomainRow) (s : State)
    → find_by_login_app app.login app.app_name s.table ≡ some row
    → in_active_phase row.status ≡ false
    → is_cooling w.now (lookup (cooldown_key row) s.last_verify_attempt) ≡ true
    → (verify w app s).0 ≡ s
unfolding verify
cooling_keeps app w row s e work cooling = rw (e, work, cooling)

-- A request to verify takes a row to applying or active only if the DNS check found nothing wrong
-- and GitHub made the commit, whose SHA the row then has.
pub verify-IsProved :
    (app : App) (w : World) (row after : CustomDomainRow) (s : State)
    → IsSound s
    → find_by_login_app app.login app.app_name s.table ≡ some row
    → in_active_phase row.status ≡ false
    → find_by_login_app app.login app.app_name (verify w app s).0.table ≡ some after
    → in_active_phase after.status ≡ true
    → IsProved w row after
verify-IsProved app w row after s h e work found phase =
    elim (Bool-cases (is_cooling w.now (lookup (cooldown_key row) s.last_verify_attempt))) [
      | inl cooling ↦
          let same : row ≡ after = some-eq (
            sym e
            ∙ (ap (λ (t : State). find_by_login_app app.login app.app_name t.table)
                  (sym (cooling_keeps app w row s e work cooling))
                ∙ found)) in
          absurd (cc (ap (λ (r : CustomDomainRow). in_active_phase r.status) same))
      | inr free ↦
          let row' =
            verdict_row w.now (cert_ready w row s) row (check_dns w row)
              (commit_custom_domain_ingress w row) in
          let same : row' ≡ after =
            some-eq (sym (verify-verdict_row app w row s h e work free) ∙ found) in
          let (dns, rest) =
            verdict_proves w.now (cert_ready w row s) row (check_dns w row)
              (commit_custom_domain_ingress w row)
              (ap (λ (r : CustomDomainRow). in_active_phase r.status) same ∙ phase) in
          record {
            dns = dns;
            sha = rest.0;
            commit = rest.1;
            recorded = ap (λ (r : CustomDomainRow). r.applied_commit) (sym same) ∙ rest.2;
          }
    ]
