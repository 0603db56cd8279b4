-- ===== src/Domain/Service/Outcome.antt =====
-- What a verification leaves in the table: the row that the DNS and GitHub determine. Here are the
-- row's updates and how a row is followed through them.
pub mod Verified
use mathlib.Core.Option
use swkoo_kr.Prelude.{
  ℕ, ◌≡◌, refl, sym, ap, ◌∙◌, Bool, true, false, ◌&&◌, Option, none, some, ◌++◌, arith, inl, inr,
  Bool-cases, Option-cases, Result-cases, or_else, if◌then◌else◌, Result, ok, err, find,
}
use swkoo_kr.Prelude.Rows.{step, find-update_where}
use swkoo_kr.Prelude.Texts.{Text, lit, text_eq}
use swkoo_kr.Prelude.Maps.{lookup}
use swkoo_kr.Domain.Repository.{
  CustomDomainRow, CustomDomainStatus, verified, applying, active, error, StatusChange, no_change,
  Table, of_id, of_app, update_row, set_status, set_applied, set_no_error, update_status,
  mark_applied, clear_error, find_by_login_app, in_active_phase,
}
use swkoo_kr.Domain.Repository.Unique.{
  IsTable, KeepsKeys, SameKeys, KeepsKeys-at, set_status-KeepsKeys, set_applied-KeepsKeys,
  set_no_error-KeepsKeys, update_row-IsTable,
}
use swkoo_kr.Domain.Repository.Current.{find-of_id}
use swkoo_kr.Domain.CertCache
use swkoo_kr.Domain.Service.State.{State, World, App, notify_operator_of_failure}
use swkoo_kr.Domain.Service.Checks.{DnsFailure, check_dns, commit_custom_domain_ingress}
use swkoo_kr.Domain.Service.Info.{to_info, settle, activate, is_applying, cert_namespace, cert_name}
use swkoo_kr.Domain.Service.Verify.{
  verify, attempt, dns_failed, committed, commit_refused, promote, proved_at, is_cooling,
  cooldown_key,
}
use swkoo_kr.Domain.Service.Sound.{IsSound}

-- The row after a check that fails.
abbrev pub failure_of : DnsFailure → StatusChange
failure_of e = record {
  last_error = some e.message;
  last_error_reason = some e.reason;
  verified_at = none;
}

abbrev pub refusal_of : Text → StatusChange
refusal_of message = record {
  last_error = some (lit "manifest 커밋 실패: " ++ message);
  last_error_reason = none;
  verified_at = none;
}

abbrev pub promoted : ℕ → CustomDomainRow → CustomDomainRow
promoted now row = set_status now verified (proved_at now) (set_no_error now row)

abbrev pub applied : ℕ → Text → CustomDomainRow → CustomDomainRow
applied now sha row = set_status now applying no_change (set_applied now sha (promoted now row))

-- The keys of a row under an update that keeps them.
app_kept :
    (login app_name : Text) (a b : CustomDomainRow)
    → SameKeys a b
    → of_app login app_name a ≡ of_app login app_name b
app_kept login app_name a b k = rw (k.login, k.app_name) refl

id_kept : (id : ℕ) (a b : CustomDomainRow) → SameKeys a b → of_id id a ≡ of_id id b
id_kept id a b k = rw k.id refl

step_kept :
    (q : CustomDomainRow → Bool) (id : ℕ) (f : CustomDomainRow → CustomDomainRow)
    → ((r : CustomDomainRow) → q (f r) ≡ q r)
    → (r : CustomDomainRow) → q (step (of_id id) f r) ≡ q r
step_kept q id f same r = elim (Bool-cases (of_id id r)) [
  | inl e ↦ rw e (same r)
  | inr e ↦ rw e refl
]

step_self :
    (f : CustomDomainRow → CustomDomainRow) (row : CustomDomainRow)
    → step (of_id row.id) f row ≡ f row
step_self f row = ground arith

-- A row that is found is found again after its update, updated.
found-update_row :
    (q : CustomDomainRow → Bool) (t : Table) (row : CustomDomainRow)
    (f : CustomDomainRow → CustomDomainRow)
    → ((r : CustomDomainRow) → q (f r) ≡ q r)
    → find q t.rows ≡ some row
    → find q (update_row row.id f t).rows ≡ some (f row)
found-update_row q t row f same e =
    find-update_where (of_id row.id) f q t.rows (step_kept q row.id f same)
    ∙ (ap (Option.map (step (of_id row.id) f)) e ∙ ap some (step_self f row))

-- The table is sound, and has the row for an app.
pub record Has (app : App) (t : Table) (row : CustomDomainRow) : Type 0 where
  pub table : IsTable t
  pub found : find (of_app app.login app.app_name) t.rows ≡ some row

-- Whether the certificate is ready when the state is read.
abbrev pub cert_ready : World → CustomDomainRow → State → Bool
cert_ready w row s =
    (CertCache.get w.kube w.now (cert_namespace row) (cert_name row) s.certs).1.ready

-- The row after `toInfo`.
abbrev pub settled : ℕ → Bool → CustomDomainRow → CustomDomainRow
settled now ready row =
    if is_applying row.status && ready then set_status now active no_change row else row

module _ (app : App) where
  pub Has-update_row :
      (t : Table) (row : CustomDomainRow) (f : CustomDomainRow → CustomDomainRow)
      → KeepsKeys f
      → Has app t row
      → Has app (update_row row.id f t) (f row)
  Has-update_row t row f keeps h = record {
    table = update_row-IsTable row.id f t keeps h.table;
    found =
        found-update_row (of_app app.login app.app_name) t row f
          (λ r. app_kept app.login app.app_name (f r) r (KeepsKeys-at f keeps r)) h.found;
  }

  -- `RETURNING` gives the updated row.
  pub Has-returning :
      (t : Table) (row : CustomDomainRow) (f : CustomDomainRow → CustomDomainRow)
      → KeepsKeys f
      → Has app t row
      → find (of_id row.id) (update_row row.id f t).rows ≡ some (f row)
  Has-returning t row f keeps h =
      found-update_row (of_id row.id) t row f (λ r. id_kept row.id (f r) r (KeepsKeys-at f keeps r))
        (find-of_id _ t.rows row h.table.apart h.found)

  pub Has-to_info :
      (w : World) (row : CustomDomainRow) (s : State)
      → Has app s.table row
      → Has app (to_info w row s).0.table (settled w.now (cert_ready w row s) row)
  unfolding to_info settle activate update_status
  Has-to_info w row s h = elim (Bool-cases (is_applying row.status && cert_ready w row s)) [
    | inl e ↦ rw e (Has-update_row s.table row _ (set_status-KeepsKeys w.now active no_change) h)
    | inr e ↦ rw e h
  ]
