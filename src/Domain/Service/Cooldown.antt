-- ===== src/Domain/Service/Cooldown.antt =====
-- The cooldown between two verifications of a domain.
use mathlib.Core.Path.{ap₂}
use swkoo_kr.Prelude.{
  ℕ, ◌+◌, ◌-◌, ◌*◌, ◌≤◌, ◌<◌, ◌≡◌, refl, sym, ap, ◌∙◌, Bool, true, false, Option, none, some, arith,
  inl, inr, Option-cases, Result-cases, Result, ok, err, some-eq,
}
use swkoo_kr.Prelude.Texts.{Text, text_beq_refl}
use swkoo_kr.Prelude.Maps.{lookup, insert, lookup-insert}
use swkoo_kr.Domain.Repository.{
  CustomDomainRow, find_by_login_app, in_active_phase, set_status, set_applied, set_no_error,
}
use swkoo_kr.Domain.Service.State.{
  State, World, App, domain_verify_cooldown, OperatorFailureNotice, notify_operator_of_failure,
}
use swkoo_kr.Domain.Service.Checks.{DnsFailure, check_dns, commit_custom_domain_ingress}
use swkoo_kr.Domain.Service.Info.{to_info, settle, activate}
use swkoo_kr.Domain.Service.Verify.{
  verify, attempt, dns_failed, committed, commit_refused, is_cooling, cooldown_key, retry_after_sec,
  verify_cooldown_ms,
}
use swkoo_kr.Domain.Service.Sound.{IsSound}
use swkoo_kr.Domain.Service.Outcome.{cert_ready}
use swkoo_kr.Domain.Service.Outcome.Verified.{verdict_row, verify-verdict_row}

-- The seconds that are named suffice, one less would not, and there are 1 to 30 of them.
pub retry_after_sec-exact :
    (now last_at : ℕ)
    → last_at ≤ now
    → now < last_at + verify_cooldown_ms
    → (1 ≤ retry_after_sec now last_at)
      × (retry_after_sec now last_at ≤ 30)
      × (last_at + verify_cooldown_ms ≤ now + 1000 * retry_after_sec now last_at)
      × (now + 1000 * (retry_after_sec now last_at - 1) < last_at + verify_cooldown_ms)
unfolding retry_after_sec
retry_after_sec-exact now last_at h k = omega arith

to_info-attempts :
    (w : World) (row : CustomDomainRow) (s : State)
    → (to_info w row s).0.last_verify_attempt ≡ s.last_verify_attempt
unfolding to_info settle activate
to_info-attempts w row s = ground arith

notify-attempts :
    (w : World) (n : OperatorFailureNotice) (s : State)
    → (notify_operator_of_failure w n s).last_verify_attempt ≡ s.last_verify_attempt
unfolding notify_operator_of_failure
notify-attempts w n s = ground arith

-- An attempt is remembered with its time.
attempt-attempts :
    (w : World) (row : CustomDomainRow) (s : State)
    → (attempt w row s).0.last_verify_attempt
      ≡ insert (cooldown_key row) w.now s.last_verify_attempt
unfolding attempt dns_failed committed commit_refused
attempt-attempts w row s = elim (Option-cases (check_dns w row)) [
  | inr (e, failed) ↦ rw failed (to_info-attempts w _ _ ∙ notify-attempts w _ _)
  | inl proved ↦ rw proved (elim (Result-cases (commit_custom_domain_ingress w row)) [
    | inl (sha, e) ↦ rw e (to_info-attempts w _ _)
    | inr (message, e) ↦ rw e (to_info-attempts w _ _ ∙ notify-attempts w _ _)
  ])
]

-- A verification does not rename the row.
verdict_row-key :
    (now : ℕ) (ready : Bool) (row : CustomDomainRow) (d : Option DnsFailure) (c : Result Text Text)
    → cooldown_key (verdict_row now ready row d c) ≡ cooldown_key row
unfolding set_status set_applied set_no_error
verdict_row-key now ready row (some e) c = refl
verdict_row-key now ready row none (err message) = refl
verdict_row-key now true row none (ok sha) = refl
verdict_row-key now false row none (ok sha) = refl

verify-attempts :
    (app : App) (w : World) (row : CustomDomainRow) (s : State)
    → find_by_login_app app.login app.app_name s.table ≡ some row
    → in_active_phase row.status ≡ false
    → is_cooling w.now (lookup (cooldown_key row) s.last_verify_attempt) ≡ false
    → (verify w app s).0.last_verify_attempt ≡ insert (cooldown_key row) w.now s.last_verify_attempt
unfolding verify
verify-attempts app w row s found work free = rw (found, work, free) (attempt-attempts w row s)

verify-throttled :
    (app : App) (w : World) (row : CustomDomainRow) (last_at : ℕ) (s : State)
    → find_by_login_app app.login app.app_name s.table ≡ some row
    → in_active_phase row.status ≡ false
    → lookup (cooldown_key row) s.last_verify_attempt ≡ some last_at
    → is_cooling w.now (some last_at) ≡ true
    → verify w app s ≡ (s, err (domain_verify_cooldown (retry_after_sec w.now last_at)))
unfolding verify
verify-throttled app w row last_at s found work last cooling = rw (found, work, last, cooling)

-- After an attempt, and for thirty seconds, a further request to verify a row that is not applied
-- yet is refused, with the seconds that are left, and changes nothing.
pub verify-cooldown :
    (app : App) (w w' : World) (row row' : CustomDomainRow) (s : State)
    → IsSound s
    → find_by_login_app app.login app.app_name s.table ≡ some row
    → in_active_phase row.status ≡ false
    → is_cooling w.now (lookup (cooldown_key row) s.last_verify_attempt) ≡ false
    → find_by_login_app app.login app.app_name (verify w app s).0.table ≡ some row'
    → in_active_phase row'.status ≡ false
    → 0 < w.now
    → w'.now < w.now + verify_cooldown_ms
    → verify w' app (verify w app s).0
      ≡ ((verify w app s).0, err (domain_verify_cooldown (retry_after_sec w'.now w.now)))
verify-cooldown app w w' row row' s h found work free found' work' pos soon =
    let same : verdict_row w.now (cert_ready w row s) row (check_dns w row)
          (commit_custom_domain_ingress w row)
        ≡ row' =
      some-eq (sym (verify-verdict_row app w row s h found work free) ∙ found') in
    let key : cooldown_key row' ≡ cooldown_key row =
      ap (λ (r : CustomDomainRow). cooldown_key r) (sym same)
      ∙ verdict_row-key w.now _ row (check_dns w row) (commit_custom_domain_ingress w row) in
    let last : lookup (cooldown_key row') (verify w app s).0.last_verify_attempt ≡ some w.now =
      ap₂ (λ k m. lookup k m) key (verify-attempts app w row s found work free)
      ∙ rw (lookup-insert, text_beq_refl) refl in
    verify-throttled app w' row' w.now (verify w app s).0 found' work' last (ground arith)
