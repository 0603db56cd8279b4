-- ===== src/Domain/Tests/Pieces.antt =====
-- The validation, the look-ups and the certificate cache at concrete inputs.
use swkoo_kr.Prelude.{ℕ, ◌≡◌, refl, true, none, [], ◌∷◌, ok, if◌then◌else◌, ◌==◌, nat_eq}
use swkoo_kr.Prelude.Texts.{Text, lit}
use swkoo_kr.Domain.Validation.{Validated, validate_custom_domain}
use swkoo_kr.Domain.Validation.Accepts.{IsHostName, validate-IsHostName}
use swkoo_kr.Domain.Validation.Normal.{validate-normalized}
use swkoo_kr.Domain.Dns.{with_retry}
use swkoo_kr.Domain.Dns.Retries.{IsRetried, with_retry-IsRetried}
use swkoo_kr.Domain.CertCache
use swkoo_kr.Domain.CertCache.{Cache, KubeRead, is_fresh, read}
use swkoo_kr.Domain.CertCache.Freshness.{get-is_fresh}
use swkoo_kr.Domain.Tests.{run, parse, blog, cname_answer}

abbrev accepted : Validated
accepted = record { normalized = blog; registrable = lit "anns.dev" }

validate-IsHostName_example : IsHostName (parse blog) accepted
unfolding run
validate-IsHostName_example = validate-IsHostName parse (lit " Blog.Anns.Dev") accepted refl

validate-normalized_example : validate_custom_domain parse blog ≡ ok accepted
unfolding run
validate-normalized_example = validate-normalized parse (lit " Blog.Anns.Dev") accepted refl

with_retry-IsRetried_example : IsRetried cname_answer (with_retry cname_answer)
with_retry-IsRetried_example = with_retry-IsRetried cname_answer

abbrev cert : ℕ → Text → Text → KubeRead
cert n namespace name =
    KubeRead.certificate
      (record {
        kind = lit "Ready";
        status = if n == 0 then lit "False" else lit "True";
        reason = none;
        message = none;
      }
        ∷ [])
      none

abbrev namespace : Text
namespace = lit "user-ann"

abbrev secret : Text
secret = lit "web-custom-domain-tls"

abbrev cached : Cache
cached = (CertCache.get (cert 0) 1000 namespace secret []).0

get-is_fresh_example :
    is_fresh 21000 (CertCache.get (cert 1) 21000 namespace secret cached).1 ≡ true
get-is_fresh_example = get-is_fresh (cert 1) 21000 namespace secret cached
