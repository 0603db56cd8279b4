-- ===== src/Domain/Service/Checks.antt =====
-- `checkDns`, `detectAConflict` and the manifest commits of domain/domain.service.ts.
use swkoo_kr.Prelude.{
  Bool, true, false, Option, none, some, List, [], ◌∷◌, ◌++◌, if◌then◌else◌, ◌==◌, Result, ok, err,
  ◌>>=◌, any, or_else, drop,
}
use swkoo_kr.Prelude.Texts.{Text, lit, text_eq, to_lower, split, join}
use swkoo_kr.Domain.Validation.{Parsed}
use swkoo_kr.Domain.Repository.{
  CustomDomainRow, VerificationScheme, txt_cname, cname_token, FailureReason, dns_txt_not_found,
  dns_txt_error, dns_txt_mismatch, dns_cname_not_found, dns_cname_error, dns_cname_mismatch,
  dns_cname_conflicts_with_a,
}
use swkoo_kr.Domain.Dns.{DnsError, is_permanent, resolve_txt, resolve_cname, resolve_a}
use swkoo_kr.Domain.Kustomization.{
  get_custom_domain_ingress_path, render_custom_domain_ingress, add_entry, remove_entry,
}
use swkoo_kr.Domain.Service.State.{World}

-- `{ reason, message }`
pub record DnsFailure : Type 0 where
  pub reason : FailureReason
  pub message : Text

abbrev fail : FailureReason → Text → Option DnsFailure
fail reason message = some (record { reason = reason; message = message })

abbrev pub txt_host : CustomDomainRow → Text
txt_host row = lit "_swkoo-challenge." ++ row.domain

abbrev pub expected_txt : CustomDomainRow → Text
expected_txt row = lit "swkoo-domain-verification=" ++ row.verification_token

-- `.replace(/\.$/, '')`
unfoldable pub strip_dot : Text → Text
strip_dot [] = []
strip_dot (c ∷ []) = if (c ∷ []) == lit "." then [] else c ∷ []
strip_dot (c ∷ d ∷ s) = c ∷ strip_dot (d ∷ s)

abbrev pub host_name : Text → Text
host_name s = strip_dot (to_lower s)

-- `parse(domain).domain ?? domain.split('.').slice(1).join('.')`
abbrev pub registrable_of : (Text → Parsed) → Text → Text
registrable_of parse domain =
    or_else (parse domain).domain (join (lit ".") (drop 1 (split b'.' domain)))

abbrev conflict_message : Text → Text → Text
conflict_message domain registrable =
    domain
    ++ (lit "은 현재 다른 서비스(Vercel 등)로 연결된 A 레코드가 있습니다. "
        ++ (lit "DNS 규칙상 한 host는 A 레코드와 CNAME을 동시에 가질 수 없습니다. "
            ++ (lit "기존 서비스를 유지하려면 portfolio."
                ++ (registrable
                    ++ (lit " 같은 새 subdomain을 사용하세요. "
                        ++ (domain ++ lit "을 swkoo.kr로 옮기려면 기존 A 레코드를 삭제하고 CNAME을 추가하세요."))))))

abbrev conflict_of : (Text → Parsed) → Text → Result DnsError (List Text) → Option DnsFailure
conflict_of parse domain (err e) = none
conflict_of parse domain (ok []) = none
conflict_of parse domain (ok (r ∷ rs)) =
    fail dns_cname_conflicts_with_a (conflict_message domain (registrable_of parse domain))

unfoldable pub detect_a_conflict : World → Text → Option DnsFailure
detect_a_conflict w domain = conflict_of w.parse domain (resolve_a w.network domain)

abbrev or_not_found : Text → Option DnsFailure → Option DnsFailure
or_not_found domain (some conflict) = some conflict
or_not_found domain none =
    fail dns_cname_not_found (lit "CNAME 레코드를 찾을 수 없습니다 (" ++ (domain ++ lit ")."))

abbrev no_cname : World → Text → DnsError → Bool → Option DnsFailure
no_cname w domain e true = or_not_found domain (detect_a_conflict w domain)
no_cname w domain e false = fail dns_cname_error (lit "CNAME 조회 실패: " ++ e.message)

-- `cnameRecords.join(',') || '(none)'`
abbrev or_none : Text → Text
or_none [] = lit "(none)"
or_none (c ∷ s) = c ∷ s

unfoldable pub has_record : Text → List Text → Bool
has_record expected records = any (λ r. host_name r == host_name expected) records

abbrev cname_verdict : World → CustomDomainRow → Result DnsError (List Text) → Option DnsFailure
cname_verdict w row (err e) = no_cname w row.domain e (is_permanent e.code)
cname_verdict w row (ok records) =
    if has_record row.expected_cname records
    then none
    else fail dns_cname_mismatch (
        lit "CNAME 대상이 일치하지 않습니다. 기대값: "
        ++ (row.expected_cname ++ (lit ", 실제: " ++ or_none (join (lit ",") records))))

unfoldable pub check_cname : World → CustomDomainRow → Option DnsFailure
unfolding has_record
check_cname w row = cname_verdict w row (resolve_cname w.network row.domain)

abbrev txt_verdict : CustomDomainRow → Result DnsError (List Text) → Option DnsFailure
txt_verdict row (err e) =
    if is_permanent e.code
    then fail dns_txt_not_found
        (lit "TXT 레코드를 찾을 수 없습니다 (" ++ (txt_host row ++ lit "). DNS 전파를 기다리거나 레코드를 다시 확인하세요."))
    else fail dns_txt_error (lit "TXT 조회 실패: " ++ e.message)
txt_verdict row (ok records) =
    if any (λ r. r == expected_txt row) records
    then none
    else fail dns_txt_mismatch (lit "TXT 값이 일치하지 않습니다. 기대값: " ++ expected_txt row)

-- The TXT challenge, for rows of the first scheme only.
abbrev txt_step : World → CustomDomainRow → VerificationScheme → Option DnsFailure
txt_step w row cname_token = none
txt_step w row txt_cname = txt_verdict row (resolve_txt w.network (txt_host row))

abbrev then_cname : World → CustomDomainRow → Option DnsFailure → Option DnsFailure
then_cname w row (some failure) = some failure
then_cname w row none = check_cname w row

-- `none` is `null`: the DNS proves that the user holds the domain.
unfoldable pub check_dns : World → CustomDomainRow → Option DnsFailure
unfolding check_cname
check_dns w row = then_cname w row (txt_step w row row.scheme)

abbrev kustomization_file : Text
kustomization_file = lit "kustomization.yaml"

-- `commitCustomDomainIngress`
unfoldable pub commit_custom_domain_ingress : World → CustomDomainRow → Result Text Text
commit_custom_domain_ingress w row = do
  token ← w.github.token_for w.deploy_owner row.login
  current ← w.github.file w.deploy_owner row.login kustomization_file token
  w.github.commit (record {
    owner = w.deploy_owner;
    repo = row.login;
    branch = lit "main";
    files =
        (
          get_custom_domain_ingress_path row.app_name,
          render_custom_domain_ingress row.login row.app_name row.domain,
        )
        ∷ (kustomization_file, add_entry row.app_name current)
        ∷ [];
    delete_paths = [];
    message =
        lit "feat(domain): add custom domain "
        ++ (row.domain
            ++ (10
                ∷ 10
                ∷ lit
                    "Managed by https://swkoo.kr — re-render preserves this Ingress until the user removes the domain."));
    token = token;
  })

-- `commitCustomDomainIngressRemove`
unfoldable pub commit_custom_domain_ingress_remove : World → CustomDomainRow → Result Text Text
commit_custom_domain_ingress_remove w row = do
  token ← w.github.token_for w.deploy_owner row.login
  current ← w.github.file w.deploy_owner row.login kustomization_file token
  w.github.commit (record {
    owner = w.deploy_owner;
    repo = row.login;
    branch = lit "main";
    files = (kustomization_file, remove_entry row.app_name current) ∷ [];
    delete_paths = get_custom_domain_ingress_path row.app_name ∷ [];
    message =
        lit "chore(domain): remove custom domain "
        ++ (row.domain
            ++ (10
                ∷ 10
                ∷ lit "Managed by https://swkoo.kr — base <slug>.apps.swkoo.kr URL preserved."));
    token = token;
  })
