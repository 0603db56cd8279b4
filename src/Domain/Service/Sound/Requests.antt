-- ===== src/Domain/Service/Sound/Requests.antt =====
-- Each request of the domain service keeps the invariant, whatever the outside answers.
use swkoo_kr.Prelude.{
  ℕ, ◌≡◌, refl, none, some, arith, inl, inr, Bool-cases, Option-cases, Result-cases, or_else, ok,
  find,
}
use swkoo_kr.Prelude.Texts.{Text}
use swkoo_kr.Prelude.Maps.{lookup}
use swkoo_kr.Domain.Validation.{validate_custom_domain}
use swkoo_kr.Domain.Repository.{
  CustomDomainRow, CustomDomainStatus, Table, of_app, find_by_login_app, find_by_domain, create,
  in_active_phase, is_truthy, update_status, error, applying, no_change, StatusChange,
}
use swkoo_kr.Domain.Repository.Unique.{IsTable, create-ok}
use swkoo_kr.Domain.Repository.Current.{
  IsCurrent, find-IsCurrent, returning-IsCurrent, new-IsCurrent,
}
use swkoo_kr.Domain.Service.State.{
  State, World, App, OperatorFailureNotice, notify_operator_of_failure,
}
use swkoo_kr.Domain.Service.Checks.{
  DnsFailure, check_dns, commit_custom_domain_ingress, commit_custom_domain_ingress_remove,
}
use swkoo_kr.Domain.Service.Info.{to_info}
use swkoo_kr.Domain.Service.Register.{get, register, input_for}
use swkoo_kr.Domain.Service.Verify.{
  verify, attempt, committed, commit_refused, dns_failed, is_cooling, cooldown_key,
}
use swkoo_kr.Domain.Service.Delete.{delete_domain, drop_row, removal_refused}
use swkoo_kr.Domain.Service.Sound.{TableIsSound, IsSound}
use swkoo_kr.Domain.Service.Sound.Steps.{
  fail-IsSound, promote-IsPromoted, IsPromoted, IsPromoted-IsSound, applied-IsSound, delete-IsSound,
  create-IsSound, to_info-IsSound,
}

pub notify-table :
    (w : World) (n : OperatorFailureNotice) (s : State)
    → (notify_operator_of_failure w n s).table ≡ s.table
unfolding notify_operator_of_failure
notify-table w n s = ground arith

-- `get`
-- What an UPDATE returns is current in the table that it leaves.
updated-IsCurrent :
    (now : ℕ) (row : CustomDomainRow) (status : CustomDomainStatus) (c : StatusChange) (t : Table)
    → IsTable (update_status now row.id status c t).0
    → IsCurrent
        (or_else (update_status now row.id status c t).1 row)
        (update_status now row.id status c t).0
unfolding update_status
updated-IsCurrent now row status c t h = returning-IsCurrent _ row h

-- `get`
pub get-IsSound : (w : World) (app : App) (s : State) → IsSound s → IsSound (get w app s).0
unfolding get find_by_login_app
get-IsSound w app s h = elim (Option-cases (find (of_app app.login app.app_name) s.table.rows)) [
  | inl e ↦ rw e h
  | inr (row, e) ↦ rw e (to_info-IsSound w row s h (find-IsCurrent _ s.table row h.table e))
]

-- `register`
created-IsSound :
    (w : World) (user_id : ℕ) (app : App) (domain : Text) (s : State)
    → IsSound s
    → find (of_app app.login app.app_name) s.table.rows ≡ none
    → (table : Table) (row : CustomDomainRow)
    → create w.now (input_for w user_id app domain) s.table ≡ ok (table, row)
    → TableIsSound table × IsCurrent row table
created-IsSound w user_id app domain s h free table row e =
    let (_, grown, made) = create-ok _ _ s.table table row e in
    (
      create-IsSound _ _ s.table table row h free e,
      rw grown (new-IsCurrent s.table row h.table (rw made refl)),
    )

pub register-IsSound :
    (w : World) (user_id : ℕ) (app : App) (domain : Text) (s : State)
    → IsSound s
    → IsSound (register w user_id app domain s).0
unfolding register find_by_login_app
register-IsSound w user_id app domain s h =
    elim (Result-cases (validate_custom_domain w.parse domain)) [
      | inr (reason, e) ↦ rw e h
      | inl (v, e) ↦ rw e (elim (Option-cases (find (of_app app.login app.app_name) s.table.rows)) [
        | inr (row, taken) ↦ rw taken h
        | inl free ↦ rw free (elim (Option-cases (find_by_domain v.normalized s.table)) [
          | inr (row, taken) ↦ rw taken h
          | inl open_domain ↦
              rw open_domain
                (elim (Result-cases (create w.now (input_for w user_id app v.normalized) s.table)) [
                  | inr (refused, c) ↦ rw c h
                  | inl ((table, row), c) ↦
                      let (sound, current) =
                        created-IsSound w user_id app v.normalized s h free table row c in
                      rw c (to_info-IsSound w row _ sound current)
                ])
        ])
      ])
    ]

-- `verify`
failed_answer-IsSound :
    (w : World) (row : CustomDomainRow) (c : StatusChange) (message : Text) (s t : State)
    → c.last_error ≡ some message
    → c.verified_at ≡ none
    → IsSound s
    → t.table ≡ (update_status w.now row.id error c s.table).0
    → IsSound (to_info w (or_else (update_status w.now row.id error c s.table).1 row) t).0
failed_answer-IsSound w row c message s t m v h e =
    let sound = fail-IsSound w.now row.id message c s.table m v h in
    to_info-IsSound w _ t (rw e sound)
      (rw e (updated-IsCurrent w.now row error c s.table sound.table))

dns_failed-IsSound :
    (w : World) (row : CustomDomainRow) (e : DnsFailure) (s : State)
    → IsSound s
    → IsSound (dns_failed w row e s).0
unfolding dns_failed
dns_failed-IsSound w row e s h =
    failed_answer-IsSound w row _ e.message s _ refl refl h (notify-table w _ _)

commit_refused-IsSound :
    (w : World) (row : CustomDomainRow) (message : Text) (s : State)
    → IsSound s
    → IsSound (commit_refused w row message s).0
unfolding commit_refused
commit_refused-IsSound w row message s h =
    failed_answer-IsSound w row _ _ s _ refl refl h (notify-table w _ _)

committed-IsSound :
    (w : World) (row : CustomDomainRow) (sha : Text) (s : State)
    → IsPromoted row.id s.table
    → IsSound (committed w row sha s).0
unfolding committed
committed-IsSound w row sha s h =
    let sound = applied-IsSound w.now row.id sha s.table h in
    to_info-IsSound w _ _ sound (updated-IsCurrent w.now row applying no_change _ sound.table)

attempt-IsSound :
    (w : World) (row : CustomDomainRow) (s : State) → IsSound s → IsSound (attempt w row s).0
unfolding attempt
attempt-IsSound w row s h = elim (Option-cases (check_dns w row)) [
  | inr (e, failed) ↦ rw failed (dns_failed-IsSound w row e _ h)
  | inl proved ↦
      let promoted = promote-IsPromoted w row s.table h in
      rw proved (elim (Result-cases (commit_custom_domain_ingress w row)) [
        | inl (sha, e) ↦ rw e (committed-IsSound w row sha _ promoted)
        | inr (message, e) ↦
            rw e (commit_refused-IsSound w row message _ (IsPromoted-IsSound row.id _ promoted))
      ])
]

pub verify-IsSound : (w : World) (app : App) (s : State) → IsSound s → IsSound (verify w app s).0
unfolding verify find_by_login_app
verify-IsSound w app s h = elim (Option-cases (find (of_app app.login app.app_name) s.table.rows)) [
  | inl free ↦ rw free h
  | inr (row, found) ↦ rw found (elim (Bool-cases (in_active_phase row.status)) [
    | inl phase ↦ rw phase (to_info-IsSound w row s h (find-IsCurrent _ s.table row h.table found))
    | inr work ↦
        rw work
          (elim (Bool-cases (is_cooling w.now (lookup (cooldown_key row) s.last_verify_attempt))) [
            | inl cooling ↦ rw cooling h
            | inr free ↦ rw free (attempt-IsSound w row s h)
          ])
  ])
]

-- `delete`
dropped-IsSound : (row : CustomDomainRow) (s : State) → IsSound s → IsSound (drop_row row s).0
unfolding drop_row
dropped-IsSound row s h = delete-IsSound row.id s.table h

refused-IsSound :
    (w : World) (row : CustomDomainRow) (message : Text) (s : State)
    → IsSound s
    → IsSound (removal_refused w row message s).0
unfolding removal_refused
refused-IsSound w row message s h =
    rw (notify-table w _ _) (fail-IsSound w.now row.id _ _ s.table refl refl h)

pub delete_domain-IsSound :
    (w : World) (app : App) (s : State) → IsSound s → IsSound (delete_domain w app s).0
unfolding delete_domain
delete_domain-IsSound w app s h =
    elim (Option-cases (find_by_login_app app.login app.app_name s.table)) [
      | inl free ↦ rw free h
      | inr (row, found) ↦ rw found (elim (Bool-cases (is_truthy row.applied_commit)) [
        | inr plain ↦ rw plain (dropped-IsSound row s h)
        | inl landed ↦ rw landed (elim (Result-cases (commit_custom_domain_ingress_remove w row)) [
          | inl (sha, e) ↦ rw e (dropped-IsSound row s h)
          | inr (message, e) ↦ rw e (refused-IsSound w row message s h)
        ])
      ])
    ]
