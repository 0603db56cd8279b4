-- ===== src/Domain/Tests/Requests.antt =====
-- The requests of the domain service at concrete inputs.
use swkoo_kr.Prelude.{
  inr, ok, ◌⊎◌, ◌≡◌, refl, none, some, err, arith, nat_eq, ◌++◌, ◌≤◌, ◌<◌, ◌+◌, ◌-◌, ◌*◌,
}
use swkoo_kr.Prelude.Texts.{lit}
use swkoo_kr.Domain.Repository.{error, cname_token, find_by_login_app, find_by_domain}
use swkoo_kr.Domain.Service.State.{thrown, domain_verify_cooldown}
use swkoo_kr.Domain.Service.Checks.{check_dns, commit_custom_domain_ingress}
use swkoo_kr.Domain.Service.Verify.{verify, retry_after_sec, verify_cooldown_ms}
use swkoo_kr.Domain.Service.Delete.{delete_domain}
use swkoo_kr.Domain.Service.Sound.{IsSound}
use swkoo_kr.Domain.Service.Reach.{
  init, Reach, here, next, register_request, verify_request, Reach-IsSound,
}
use swkoo_kr.Domain.Service.Proof.{CnameProof, TxtProof, check_dns-proof}
use swkoo_kr.Domain.Service.Outcome.{cert_ready}
use swkoo_kr.Domain.Service.Outcome.Verified.{
  verdict_row, verify-verdict_row, IsProved, verify-IsProved,
}
use swkoo_kr.Domain.Service.Cooldown.{retry_after_sec-exact, verify-cooldown}
use swkoo_kr.Domain.Service.Removal.{MayRemove, delete_domain-frees, delete_domain-refused}
use swkoo_kr.Domain.Tests.{
  run, blog, app, row, applied_row, refused_row, world, landed, refused, registered, verified_state,
}

registered-Reach : Reach init registered
registered-Reach = next here (register_request (world 5 landed) 1 app (lit " Blog.Anns.Dev") init)

verified-Reach : Reach init verified_state
verified-Reach = next registered-Reach (verify_request (world 7 landed) app registered)

Reach-IsSound_example : IsSound verified_state
Reach-IsSound_example = Reach-IsSound verified-Reach

registered-IsSound : IsSound registered
registered-IsSound = Reach-IsSound registered-Reach

verified-IsSound : IsSound verified_state
verified-IsSound = Reach-IsSound verified-Reach

check_dns-proof_example :
    CnameProof (world 7 landed) row × ((row.scheme ≡ cname_token) ⊎ TxtProof (world 7 landed) row)
unfolding run
check_dns-proof_example = check_dns-proof (world 7 landed) row refl

verify-verdict_row_example :
    find_by_login_app app.login app.app_name (verify (world 7 landed) app registered).0.table
    ≡ some (
        verdict_row 7
          (cert_ready (world 7 landed) row registered)
          row
          (check_dns (world 7 landed) row)
          (commit_custom_domain_ingress (world 7 landed) row))
unfolding run
verify-verdict_row_example =
    verify-verdict_row app (world 7 landed) row registered registered-IsSound refl refl refl

verify-IsProved_example : IsProved (world 7 landed) row applied_row
unfolding run
verify-IsProved_example =
    verify-IsProved app (world 7 landed) row applied_row registered registered-IsSound refl refl
      refl refl

retry_after_sec-exact_example :
    (1 ≤ retry_after_sec 1500 1000)
    × (retry_after_sec 1500 1000 ≤ 30)
    × (1000 + verify_cooldown_ms ≤ 1500 + 1000 * retry_after_sec 1500 1000)
    × (1500 + 1000 * (retry_after_sec 1500 1000 - 1) < 1000 + verify_cooldown_ms)
retry_after_sec-exact_example = retry_after_sec-exact 1500 1000 (omega arith) (omega arith)

verify-cooldown_example :
    verify (world 9 landed) app (verify (world 7 refused) app registered).0 ≡ (
      (verify (world 7 refused) app registered).0,
      err (domain_verify_cooldown (retry_after_sec 9 7)),
    )
unfolding run
verify-cooldown_example =
    verify-cooldown app (world 7 refused) (world 9 landed) row refused_row registered
      registered-IsSound refl refl refl refl refl (omega arith) (omega arith)

delete_domain-frees_example :
    ((delete_domain (world 9 landed) app verified_state).1 ≡ ok tt)
    × (find_by_login_app app.login app.app_name
          (delete_domain (world 9 landed) app verified_state).0.table
        ≡ none)
    × (find_by_domain blog (delete_domain (world 9 landed) app verified_state).0.table ≡ none)
unfolding run MayRemove
delete_domain-frees_example =
    delete_domain-frees (world 9 landed) app applied_row verified_state verified-IsSound refl
      (inr (lit "c0ffee", refl))

delete_domain-refused_example :
    ((delete_domain (world 9 refused) app verified_state).1 ≡ err (thrown (lit "409")))
    × (find_by_login_app app.login app.app_name
          (delete_domain (world 9 refused) app verified_state).0.table
        ≡ some (record applied_row {
          status = error;
          last_error = some (lit "삭제 커밋 실패: " ++ lit "409");
          updated_at = 9;
        }))
unfolding run
delete_domain-refused_example =
    delete_domain-refused (world 9 refused) app applied_row verified_state (lit "409")
      verified-IsSound refl refl refl
