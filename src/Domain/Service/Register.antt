-- ===== src/Domain/Service/Register.antt =====
-- `get` and `register` of domain/domain.service.ts.
use swkoo_kr.Prelude.{ℕ, Option, none, some, ◌++◌, nat_eq, Result, ok, err}
use swkoo_kr.Prelude.Texts.{Text, lit, text_eq, trim, to_lower}
use swkoo_kr.Domain.Validation.{RejectReason, apex_not_supported, Validated, validate_custom_domain}
use swkoo_kr.Domain.Repository.{
  CustomDomainRow, cname_token, CreateCustomDomainInput, DbError, Table, find_by_login_app,
  find_by_domain, create,
}
use swkoo_kr.Domain.Service.State.{
  State, World, App, Failure, rejected, rejected_apex, domain_already_registered, domain_taken,
  constraint, no_meta, domain_register, audited,
}
use swkoo_kr.Domain.Service.Response.{Response, respond, entry_for}
use swkoo_kr.Domain.Service.Info.{DomainInfo, empty_info, to_info}

abbrev info_of : World → Option CustomDomainRow → State → State × DomainInfo
info_of w none s = (s, empty_info)
info_of w (some row) s = to_info w row s

-- `get`
unfoldable pub get : World → App → State → Response DomainInfo
get w app s = respond (info_of w (find_by_login_app app.login app.app_name s.table) s)

-- The exception for an input that `validateCustomDomain` rejects.
abbrev rejection : Text → RejectReason → Failure
rejection input apex_not_supported =
    rejected_apex (to_lower (trim input)) (lit "www." ++ to_lower (trim input))
rejection input reason = rejected reason

unfoldable pub token_of : World → Text
token_of w = lit "sk-" ++ w.uuid

-- `cd-${token}.${domainsBase}`
unfoldable pub cname_of : World → Text → Text
cname_of w token = lit "cd-" ++ (token ++ (lit "." ++ w.domains_base))

abbrev pub input_for : World → ℕ → App → Text → CreateCustomDomainInput
input_for w user_id app domain = record {
  user_id = user_id;
  login = app.login;
  app_name = app.app_name;
  domain = domain;
  scheme = cname_token;
  verification_token = token_of w;
  expected_cname = cname_of w (token_of w);
}

abbrev created : World → State → Result DbError (Table × CustomDomainRow) → Response DomainInfo
created w s (err e) = (s, err constraint)
created w s (ok (table, row)) = respond (
    to_info w row
      (audited (entry_for row domain_register none no_meta) (record s { table = table })))

abbrev unless_taken : World → ℕ → App → Text → State → Option CustomDomainRow → Response DomainInfo
unless_taken w user_id app domain s (some other) = (s, err domain_taken)
unless_taken w user_id app domain s none =
    created w s (create w.now (input_for w user_id app domain) s.table)

abbrev unless_registered :
    World → ℕ → App → Text → State → Option CustomDomainRow → Response DomainInfo
unless_registered w user_id app domain s (some existing) =
    (s, err (domain_already_registered existing.domain))
unless_registered w user_id app domain s none =
    unless_taken w user_id app domain s (find_by_domain domain s.table)

abbrev register_valid :
    World → ℕ → App → Text → State → Result RejectReason Validated → Response DomainInfo
register_valid w user_id app input s (err reason) = (s, err (rejection input reason))
register_valid w user_id app input s (ok v) =
    unless_registered w user_id app v.normalized s
      (find_by_login_app app.login app.app_name s.table)

-- `register`
unfoldable pub register : World → ℕ → App → Text → State → Response DomainInfo
register w user_id app input s =
    register_valid w user_id app input s (validate_custom_domain w.parse input)
