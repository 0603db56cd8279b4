-- ===== src/Domain/Service/Info.antt =====
-- `toInfo` and `emptyInfo` of domain/domain.service.ts: the response for a row, and the step from
-- applying to active that reading it makes.
use swkoo_kr.Prelude.{
  ℕ, Bool, true, false, ◌&&◌, Option, none, some, ◌∷◌, ◌++◌, if◌then◌else◌, or_else,
}
use swkoo_kr.Prelude.Texts.{Text, lit}
use swkoo_kr.Domain.Repository.{
  CustomDomainRow, CustomDomainStatus, pending, applying, active, error, VerificationScheme,
  txt_cname, cname_token, FailureReason, dns_cname_conflicts_with_a, update_status, no_change,
}
use swkoo_kr.Domain.CertCache
use swkoo_kr.Domain.CertCache.{CertStatus}
use swkoo_kr.Domain.Service.State.{
  State, World, AuditEntry, domain_active, no_meta, target_of, audited,
}
use swkoo_kr.Domain.Service.Checks.{txt_host, expected_txt}

pub record TxtRecord : Type 0 where
  pub host : Text
  pub value : Text

pub record CnameRecord : Type 0 where
  pub host : Text
  pub target : Text

pub record DnsRecords : Type 0 where
  pub txt : Option TxtRecord
  pub cname : CnameRecord

pub record DomainInfo : Type 0 where
  pub domain : Option Text
  pub status : Option CustomDomainStatus
  pub scheme : Option VerificationScheme
  pub verification_token : Option Text
  pub dns_records : Option DnsRecords
  pub verified_at : Option ℕ
  pub last_error : Option Text
  pub last_error_reason : Option FailureReason
  pub registrable_domain : Option Text
  pub suggested_subdomain : Option Text
  pub certificate_ready : Bool
  pub certificate_error : Option Text
  pub url : Option Text

unfoldable pub empty_info : DomainInfo
empty_info = record {
  domain = none;
  status = none;
  scheme = none;
  verification_token = none;
  dns_records = none;
  verified_at = none;
  last_error = none;
  last_error_reason = none;
  registrable_domain = none;
  suggested_subdomain = none;
  certificate_ready = false;
  certificate_error = none;
  url = none;
}

abbrev pub is_applying : CustomDomainStatus → Bool
is_applying applying = true
is_applying _ = false

abbrev pub is_active : CustomDomainStatus → Bool
is_active active = true
is_active _ = false

abbrev pub is_pending_or_error : CustomDomainStatus → Bool
is_pending_or_error pending = true
is_pending_or_error error = true
is_pending_or_error _ = false

abbrev txt_record : CustomDomainRow → VerificationScheme → Option TxtRecord
txt_record row cname_token = none
txt_record row txt_cname = some (record { host = txt_host row; value = expected_txt row })

-- `portfolio.${registrableDomain}`, where the last failure was a conflict
abbrev suggestion : Option FailureReason → Option Text → Option Text
suggestion (some dns_cname_conflicts_with_a) (some (c ∷ registrable)) =
    some (lit "portfolio." ++ (c ∷ registrable))
suggestion _ _ = none

-- What `toInfo` returns for a row and a certificate.
unfoldable pub render : World → CertStatus → CustomDomainRow → DomainInfo
render w cert row = record {
  domain = some row.domain;
  status = some row.status;
  scheme = some row.scheme;
  verification_token = if is_pending_or_error row.status then some row.verification_token else none;
  dns_records =
      if is_active row.status
      then none
      else some (record {
        txt = txt_record row row.scheme;
        cname = record { host = row.domain; target = row.expected_cname };
      });
  verified_at = row.verified_at;
  last_error = row.last_error;
  last_error_reason = row.last_error_reason;
  registrable_domain = (w.parse row.domain).domain;
  suggested_subdomain = suggestion row.last_error_reason (w.parse row.domain).domain;
  certificate_ready = cert.ready;
  certificate_error = cert.fetch_error;
  url = if is_active row.status && cert.ready then some (lit "https://" ++ row.domain) else none;
}

abbrev pub cert_namespace : CustomDomainRow → Text
cert_namespace row = lit "user-" ++ row.login

abbrev pub cert_name : CustomDomainRow → Text
cert_name row = row.app_name ++ lit "-custom-domain-tls"

abbrev active_entry : CustomDomainRow → AuditEntry
active_entry row = record {
  actor = row.login;
  action = domain_active;
  target = target_of row.login row.app_name row.domain;
  reason = none;
  meta = no_meta;
}

-- The step from applying to active, with the row that the answer is made from.
unfoldable pub activate : World → CustomDomainRow → State → State × CustomDomainRow
activate w row s =
    let (table, updated) = update_status w.now row.id active no_change s.table in
    (audited (active_entry row) (record s { table = table }), or_else updated row)

unfoldable pub settle : World → Bool → CustomDomainRow → State → State × CustomDomainRow
unfolding activate
settle w ready row s = if is_applying row.status && ready then activate w row s else (s, row)

unfoldable pub to_info : World → CustomDomainRow → State → State × DomainInfo
unfolding settle
to_info w row s =
    let (certs, cert) = CertCache.get w.kube w.now (cert_namespace row) (cert_name row) s.certs in
    let (s', row') = settle w cert.ready row (record s { certs = certs }) in
    (s', render w cert row')
