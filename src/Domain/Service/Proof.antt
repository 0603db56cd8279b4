-- ===== src/Domain/Service/Proof.antt =====
-- What `checkDns` proves of a domain.
use mathlib.Core.List.{Mem}
use mathlib.Core.Path.{subst}
use swkoo_kr.Prelude.{refl, ◌⊎◌, ◌≡◌, ◌==◌, none, List, arith, inl, inr, Result-cases, ok}
use swkoo_kr.Prelude.Rows.{any-mem}
use swkoo_kr.Prelude.Texts.{Text, text_beq_iff, text_eq}
use swkoo_kr.Domain.Repository.{CustomDomainRow, VerificationScheme, txt_cname, cname_token}
use swkoo_kr.Domain.Dns.{resolve_txt, resolve_cname}
use swkoo_kr.Domain.Service.State.{World}
use swkoo_kr.Domain.Service.Checks.{
  check_dns, check_cname, has_record, host_name, txt_host, expected_txt,
}

-- The domain's CNAME records hold the row's target, but for case and a dot at the end.
pub record CnameProof (w : World) (row : CustomDomainRow) : Type 0 where
  pub records : List Text
  pub answer : resolve_cname w.network row.domain ≡ ok records
  pub record_found : Text
  pub listed : Mem record_found records
  pub target : host_name record_found ≡ host_name row.expected_cname

-- The challenge's TXT records hold the row's token.
pub record TxtProof (w : World) (row : CustomDomainRow) : Type 0 where
  pub records : List Text
  pub answer : resolve_txt w.network (txt_host row) ≡ ok records
  pub listed : Mem (expected_txt row) records

scheme-cases : (s : VerificationScheme) → (s ≡ cname_token) ⊎ (s ≡ txt_cname)
scheme-cases cname_token = inl refl
scheme-cases txt_cname = inr refl

check_cname-proof :
    (w : World) (row : CustomDomainRow) → check_cname w row ≡ none → CnameProof w row
unfolding check_cname has_record
check_cname-proof w row e = elim (Result-cases (resolve_cname w.network row.domain)) [
  | inr (x, failed) ↦ absurd (ground (arith, failed))
  | inl (records, a) ↦
      let (r, m, t) =
        any-mem (λ r. host_name r == host_name row.expected_cname) records (ground (arith, a)) in
      record {
        records = records;
        answer = a;
        record_found = r;
        listed = m;
        target = (text_beq_iff (host_name r) (host_name row.expected_cname)).0 t;
      }
]

txt-proof :
    (w : World) (row : CustomDomainRow)
    → row.scheme ≡ txt_cname
    → check_dns w row ≡ none
    → TxtProof w row
unfolding check_dns
txt-proof w row scheme e = elim (Result-cases (resolve_txt w.network (txt_host row))) [
  | inr (x, failed) ↦ absurd (ground (arith, failed))
  | inl (records, a) ↦
      let (r, m, t) = any-mem (λ r. r == expected_txt row) records (ground (arith, a)) in
      record {
        records = records;
        answer = a;
        listed = subst (λ x. Mem x records) ((text_beq_iff r (expected_txt row)).0 t) m;
      }
]

then_cname-none :
    (w : World) (row : CustomDomainRow) → check_dns w row ≡ none → check_cname w row ≡ none
unfolding check_dns
then_cname-none w row e = ground arith

-- Where the DNS check finds nothing wrong, the domain's CNAME records hold the row's own target,
-- and the row is of the second scheme, or its TXT challenge is answered besides.
pub check_dns-proof :
    (w : World) (row : CustomDomainRow)
    → check_dns w row ≡ none
    → CnameProof w row × ((row.scheme ≡ cname_token) ⊎ TxtProof w row)
check_dns-proof w row e = (
  check_cname-proof w row (then_cname-none w row e),
  elim (scheme-cases row.scheme) [ inl k ↦ inl k | inr k ↦ inr (txt-proof w row k e) ],
)
