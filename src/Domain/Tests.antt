-- ===== src/Domain/Tests.antt =====
-- The domain's operations at concrete inputs: an app registers blog.anns.dev, proves it, and gives it up.
mod Pieces
mod Requests
use swkoo_kr.Prelude.{
  ℕ, ◌≡◌, refl, Bool, true, false, Option, none, some, List, [], ◌∷◌, Result, ok, err, arith, find,
  if◌then◌else◌, ◌==◌, nat_eq, ◌++◌, ◌≤◌, ◌<◌, ◌+◌, ◌-◌, ◌*◌,
}
use swkoo_kr.Prelude.Texts.{
  text_beq, lower_unit, trim_start, trim_end, starts_with, join, Text, lit, trim, to_lower, split,
  includes, ends_with,
}
use swkoo_kr.Prelude.Maps.{lookup, insert, remove}
use swkoo_kr.Domain.Validation.{
  swkoo_kr_domain, reserved_registrable_domains, Parsed, Validated, validate_custom_domain,
  check_shape, check_labels, check_suffix, check_domain, check_registrable, label_ok, is_reserved,
  is_ip,
}
use swkoo_kr.Domain.Validation.Accepts.{IsHostName, validate-IsHostName}
use swkoo_kr.Domain.Validation.Normal.{validate-normalized}
use swkoo_kr.Domain.Repository.{
  CustomDomainRow, applying, active, pending, error, cname_token, VerificationScheme, Table,
  find_by_login_app, find_by_domain, create, delete, update_status, mark_applied, clear_error,
  set_status, set_applied, set_no_error, in_active_phase, dns_cname_mismatch,
}
use swkoo_kr.Domain.Dns.{
  DnsError, enotfound, other, Network, with_retry, resolve_cname, resolve_txt, resolve_a,
}
use swkoo_kr.Domain.Dns.Retries.{IsRetried, with_retry-IsRetried}
use swkoo_kr.Domain.CertCache
use swkoo_kr.Domain.CertCache.{Cache, KubeRead, is_fresh, read}
use swkoo_kr.Domain.CertCache.Freshness.{get-is_fresh, get-again, get-invalidate}
use swkoo_kr.Domain.Kustomization.{
  get_custom_domain_ingress_path, entry_line, add_entry, remove_entry, render_custom_domain_ingress,
}
use swkoo_kr.Domain.Service.State.{
  State, World, App, Github, thrown, domain_verify_cooldown, notify_operator_of_failure,
}
use swkoo_kr.Domain.Service.Checks.{
  check_dns, check_cname, has_record, strip_dot, commit_custom_domain_ingress,
  commit_custom_domain_ingress_remove, detect_a_conflict,
}
use swkoo_kr.Domain.Service.Info.{to_info, settle, activate}
use swkoo_kr.Domain.Service.Register.{register, token_of, cname_of}
use swkoo_kr.Domain.Service.Verify.{
  verify, attempt, dns_failed, committed, commit_refused, promote, retry_after_sec, is_cooling,
  verify_cooldown_ms, cooldown_key,
}
use swkoo_kr.Domain.Service.Delete.{delete_domain, removal_refused, drop_row}
use swkoo_kr.Domain.Service.Sound.{IsSound}
use swkoo_kr.Domain.Service.Reach.{
  init, Step, Reach, here, next, register_request, verify_request, delete_request, Reach-IsSound,
}
use swkoo_kr.Domain.Service.Proof.{CnameProof, TxtProof, check_dns-proof}
use swkoo_kr.Domain.Service.Outcome.{cert_ready}
use swkoo_kr.Domain.Service.Outcome.Verified.{
  verdict_row, verify-verdict_row, IsProved, verify-IsProved,
}
use swkoo_kr.Domain.Service.Cooldown.{retry_after_sec-exact, verify-cooldown}
use swkoo_kr.Domain.Service.Removal.{delete_domain-frees, delete_domain-refused}

unfoldable pub run : Unit {0}
unfolding text_beq lower_unit trim_start trim_end starts_with join lookup insert remove
    swkoo_kr_domain reserved_registrable_domains detect_a_conflict lit trim to_lower split includes
    ends_with validate_custom_domain check_shape check_labels check_suffix check_domain
    check_registrable label_ok is_reserved is_ip find_by_login_app find_by_domain create delete
    update_status mark_applied clear_error set_status set_applied set_no_error with_retry
    resolve_cname resolve_txt resolve_a get_custom_domain_ingress_path entry_line add_entry
    remove_entry render_custom_domain_ingress notify_operator_of_failure check_dns check_cname
    has_record strip_dot commit_custom_domain_ingress commit_custom_domain_ingress_remove to_info
    settle activate register token_of cname_of verify attempt dns_failed committed commit_refused
    promote retry_after_sec delete_domain removal_refused drop_row CertCache.get CertCache.read
    CertCache.invalidate
run = tt

-- A public suffix list that has anns.dev and nothing else.
abbrev pub parse : Text → Parsed
parse t =
    if ends_with t (lit "anns.dev")
    then record { domain = some (lit "anns.dev"); is_icann = true; is_private = false }
    else record { domain = none; is_icann = false; is_private = false }

abbrev pub blog : Text
blog = lit "blog.anns.dev"

abbrev target : Text
target = lit "cd-sk-1.apps.swkoo.kr"

-- The CNAME record of the domain, after a first attempt that times out; no other record.
abbrev pub cname_answer : ℕ → Result DnsError (List Text)
cname_answer n = if n == 1 then err (record { code = other; message = [] }) else ok (target ∷ [])

abbrev network : Network
network = record {
  txt = λ name n. err (record { code = enotfound; message = [] });
  cname = λ name n. cname_answer n;
  a = λ name n. err (record { code = enotfound; message = [] });
}

abbrev github : Result Text Text → Github
github answer = record {
  token_for = λ owner login. ok (lit "t");
  file = λ owner repo path token. ok (lit "resources:");
  commit = λ request. answer;
}

abbrev pub world : ℕ → Result Text Text → World
world now answer = record {
  now = now;
  parse = parse;
  network = network;
  github = github answer;
  kube = λ namespace name. KubeRead.missing;
  uuid = lit "1";
  domains_base = lit "apps.swkoo.kr";
  deploy_owner = lit "swkoo";
  webhook_url = none;
}

abbrev pub app : App
app = record { login = lit "ann"; app_name = lit "web" }

abbrev pub landed : Result Text Text
landed = ok (lit "c0ffee")

abbrev pub refused : Result Text Text
refused = err (lit "409")

abbrev pub registered : State
registered = (register (world 5 landed) 1 app (lit " Blog.Anns.Dev") init).0

abbrev pub verified_state : State
verified_state = (verify (world 7 landed) app registered).0

abbrev pub failed_state : State
failed_state = (verify (world 7 refused) app registered).0

abbrev pub row : CustomDomainRow
row = record {
  id = 1;
  user_id = 1;
  login = lit "ann";
  app_name = lit "web";
  domain = blog;
  status = pending;
  scheme = cname_token;
  verification_token = lit "sk-1";
  expected_cname = target;
  applied_commit = none;
  verified_at = none;
  last_error = none;
  last_error_reason = none;
  created_at = 5;
  updated_at = 5;
}

abbrev pub applied_row : CustomDomainRow
applied_row = record row {
  status = applying;
  applied_commit = some (lit "c0ffee");
  verified_at = some 7;
  updated_at = 7;
}

abbrev pub refused_row : CustomDomainRow
refused_row = record row {
  status = error;
  verified_at = some 7;
  last_error = some (lit "manifest 커밋 실패: 409");
  updated_at = 7;
}

tests :
    (find_by_domain blog registered.table ≡ some row)
    × (find_by_domain blog verified_state.table ≡ some applied_row)
    × (find_by_domain blog failed_state.table ≡ some refused_row)
    × (verify (world 8 landed) app failed_state ≡ (failed_state, err (domain_verify_cooldown 30)))
    × ((delete_domain (world 9 landed) app verified_state).0.table.rows ≡ [])
unfolding run
tests = (refl, refl, refl, refl, refl)
