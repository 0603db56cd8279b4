-- ===== src/Deploy/Register/Claim.antt =====
-- `claimSubdomainOrDefault`
use swkoo_kr.Prelude.{
  Bool, false, Option, none, some, [], ◌∷◌, if◌then◌else◌, ◌==◌, or_else, Result, ok, err,
}
use swkoo_kr.Prelude.Texts.{Text, text_eq, to_lower, trim}
use swkoo_kr.Accounts.Db.{Db}
use swkoo_kr.Accounts.Users.{UserRow, SubdomainClaim, set_subdomain}
use swkoo_kr.Access.Subdomain.{SubdomainReason, validate_subdomain_format}
use swkoo_kr.Deploy.Current.{default_subdomain}
use swkoo_kr.Deploy.Handler.{Platform, Handler, pure}
use swkoo_kr.Deploy.Register.{RegisterError}

abbrev pub requested_slug : Option Text → Text
requested_slug none = []
requested_slug (some s) = to_lower (trim s)

abbrev pub claim_result :
    Text → Platform → Db × SubdomainClaim → Platform × Result RegisterError Text
claim_result slug s (db, SubdomainClaim.claim_ok) = (record s { db = db }, ok slug)
claim_result slug s (db, SubdomainClaim.taken) =
    (record s { db = db }, err RegisterError.subdomain_taken)
claim_result slug s (db, SubdomainClaim.no_user) = (record s { db = db }, err RegisterError.no_user)

abbrev pub formed : Text → Text → Result SubdomainReason (Unit {0}) → Handler RegisterError Text
formed login_lc slug (err reason) s = (s, err (RegisterError.invalid_subdomain reason))
formed login_lc slug (ok done) s = claim_result slug s (set_subdomain login_lc (some slug) s.db)

abbrev pub is_own : Text → Option Text → Bool
is_own slug none = false
is_own slug (some own) = own == slug

unfoldable pub claim_slug : UserRow → Text → Text → Handler RegisterError Text
claim_slug user login_lc slug =
    if is_own slug user.subdomain
    then pure slug
    else formed login_lc slug (validate_subdomain_format slug)

abbrev pub claim_of : UserRow → Text → Text → Text → Handler RegisterError Text
claim_of user login_lc app_name [] =
    pure (or_else user.subdomain (default_subdomain login_lc app_name))
claim_of user login_lc app_name (c ∷ s) = claim_slug user login_lc (c ∷ s)

-- `claimSubdomainOrDefault`
abbrev pub claim_subdomain_or_default :
    UserRow → Text → Text → Option Text → Handler RegisterError Text
claim_subdomain_or_default user login_lc app_name requested =
    claim_of user login_lc app_name (requested_slug requested)
