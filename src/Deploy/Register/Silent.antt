-- ===== src/Deploy/Register/Silent.antt =====
-- The handlers that write to no repository, and throw none of the errors of a write.
use swkoo_kr.Prelude.{
  ℕ, ◌≡◌, refl, ◌∙◌, Bool, true, false, ◌||◌, Option, none, some, [], ◌∷◌, ◌==◌, if◌then◌else◌,
  Result, ok, err, any,
}
use swkoo_kr.Prelude.Texts.{Text, text_eq, to_lower}
use swkoo_kr.Accounts.Db.{Db}
use swkoo_kr.Accounts.Users.{UserRow, SubdomainClaim, find_by_login, set_subdomain}
use swkoo_kr.Access.Subdomain.{SubdomainReason, validate_subdomain_format}
use swkoo_kr.Deploy.Storage.{StorageProfile}
use swkoo_kr.Deploy.Preview.{Probes, StackPreview, detect_stack}
use swkoo_kr.Deploy.Source.{SourceError, SourceSetupPlan}
use swkoo_kr.Deploy.Source.Create.{assert_reviewed, is_review}
use swkoo_kr.Deploy.Current.{CurrentDeployment, StateError, get_current_deployment}
use swkoo_kr.Deploy.Handler.{Platform, Handler, pure, continue}
use swkoo_kr.Deploy.Register.{
  World, RegisterRequest, RegisterError, user_of, allowed_user, own_repo, supported, probed,
  sourced, inspected, without_review, with_consent, reviewed_plan, is_deleting, only_app, stated,
  current_now, owner_name, repo_name, authorised, with_current, with_plan, with_preview, with_repo,
  with_user, authorise,
}
use swkoo_kr.Deploy.Register.Claim.{
  claim_result, formed, is_own, claim_slug, claim_of, claim_subdomain_or_default, requested_slug,
}

-- The errors after the first request to change a repository.
abbrev pub is_late : RegisterError → Bool
is_late (RegisterError.deploy_partial completed) = true
is_late RegisterError.app_not_installed_on_user_repo = true
is_late RegisterError.source_changed = true
is_late RegisterError.source_uncertain = true
is_late _ = false

abbrev pub ends_late {ℓ} : {A : Type ℓ} → Result RegisterError A → Bool
ends_late (ok a) = false
ends_late (err e) = is_late e

abbrev pub IsSilent {ℓ} : {A : Type ℓ} → Handler RegisterError A → Type 0
IsSilent m = (s : Platform) → ((m s).0.written ≡ s.written) × (ends_late (m s).1 ≡ false)

module _ {ℓ κ} {A : Type ℓ} {B : Type κ} where
  IsSilent-continue :
      (f : A → Handler RegisterError B) (s : Platform) (p : Platform × Result RegisterError A)
      → p.0.written ≡ s.written
      → ends_late p.1 ≡ false
      → ((a : A) → IsSilent (f a))
      → ((continue f p).0.written ≡ s.written) × (ends_late (continue f p).1 ≡ false)
  IsSilent-continue f s (t, ok a) h k next = ((next a t).0 ∙ h, (next a t).1)
  IsSilent-continue f s (t, err e) h k next = (h, k)

module _ {ℓ} {A : Type ℓ} where
  IsSilent-if :
      (b : Bool) (m n : Handler RegisterError A)
      → IsSilent m
      → IsSilent n
      → IsSilent (if b then m else n)
  IsSilent-if true m n h k = h
  IsSilent-if false m n h k = k

module _ (w : World) (user_login : Text) (req : RegisterRequest) where
  user_of-IsSilent : (o : Option UserRow) → IsSilent (user_of w user_login req o)
  user_of-IsSilent none s = (refl, refl)
  user_of-IsSilent (some user) s =
      IsSilent-if user.is_allowed _ _ (λ t. (refl, refl)) (λ t. (refl, refl)) s

  own_repo-IsSilent : (owner repo : Text) → IsSilent (own_repo w user_login req owner repo)
  own_repo-IsSilent owner repo =
      IsSilent-if (owner == [] || repo == []) _ _ (λ t. (refl, refl))
        (IsSilent-if (to_lower owner == to_lower user_login) _ _ (λ t. (refl, refl))
          (λ t. (refl, refl)))

  supported-IsSilent : (v : StackPreview) → IsSilent (supported w user_login req v)
  supported-IsSilent (StackPreview.nextjs name port engine checks profile) s = (refl, refl)
  supported-IsSilent (StackPreview.unsupported key checks) s = (refl, refl)

  probed-IsSilent : (r : Result Text Probes) → IsSilent (probed w user_login req r)
  probed-IsSilent (ok p) s = supported-IsSilent (detect_stack p) s
  probed-IsSilent (err message) s = (refl, refl)

  sourced-IsSilent {ℓ} :
      {A : Type ℓ} (r : Result SourceError A) → IsSilent (sourced w user_login req r)
  sourced-IsSilent (ok a) s = (refl, refl)
  sourced-IsSilent (err e) s = (refl, refl)

  without_review-IsSilent :
      (plan : SourceSetupPlan) → IsSilent (without_review w user_login req plan)
  without_review-IsSilent plan =
      IsSilent-if (any is_review plan.files) _ _ (λ t. (refl, refl)) (λ t. (refl, refl))

  with_consent-IsSilent : (plan : SourceSetupPlan) → IsSilent (with_consent w user_login req plan)
  with_consent-IsSilent plan s =
      let r = assert_reviewed plan req.setup_digest req.setup_consent in
      let (h, k) = sourced-IsSilent r s in
      IsSilent-continue (λ done. without_review w user_login req plan) s
        (sourced w user_login req r s) h k (λ done. without_review-IsSilent plan)

  reviewed_plan-IsSilent :
      (repo : Text) (port : ℕ) → IsSilent (reviewed_plan w user_login req repo port)
  reviewed_plan-IsSilent repo port s =
      let r = inspected w user_login req repo port in
      let (h, k) = sourced-IsSilent r s in
      IsSilent-continue (with_consent w user_login req) s (sourced w user_login req r s) h k
        with_consent-IsSilent

  stated-IsSilent {ℓ} :
      {A : Type ℓ} (r : Result StateError A) → IsSilent (stated w user_login req r)
  stated-IsSilent (ok a) s = (refl, refl)
  stated-IsSilent (err e) s = (refl, refl)

  only_app-IsSilent :
      (repo : Text) (found : Option CurrentDeployment)
      → IsSilent (only_app w user_login req repo found)
  only_app-IsSilent repo none s = (refl, refl)
  only_app-IsSilent repo (some c) s =
      IsSilent-if (is_deleting w user_login req c.state) _ _ (λ t. (refl, refl))
        (IsSilent-if (to_lower c.repo == to_lower repo) _ _ (λ t. (refl, refl)) (λ t. (refl, refl)))
        s

  with_current-IsSilent :
      (user : UserRow) (preview : ℕ × Option StorageProfile) (plan : SourceSetupPlan)
      (found : Option CurrentDeployment)
      → IsSilent (with_current w user_login req user preview plan found)
  with_current-IsSilent user preview plan found s =
      let r = repo_name w user_login req in
      let (h, k) = only_app-IsSilent r found s in
      IsSilent-continue (λ current. pure (authorised w user_login req user preview plan current)) s
        (only_app w user_login req r found s) h k (λ current t. (refl, refl))

  with_plan-IsSilent :
      (user : UserRow) (preview : ℕ × Option StorageProfile) (plan : SourceSetupPlan)
      → IsSilent (with_plan w user_login req user preview plan)
  with_plan-IsSilent user preview plan s =
      let (h, k) =
        stated-IsSilent
          (get_current_deployment w.apps_domain (w.state_of (to_lower user_login)) user_login true
            s.db)
          s in
      IsSilent-continue (with_current w user_login req user preview plan) s
        (current_now w user_login req s) h k (with_current-IsSilent user preview plan)

  with_preview-IsSilent :
      (user : UserRow) (preview : ℕ × Option StorageProfile)
      → IsSilent (with_preview w user_login req user preview)
  with_preview-IsSilent user preview s =
      let r = repo_name w user_login req in
      let (h, k) = reviewed_plan-IsSilent r preview.0 s in
      IsSilent-continue (with_plan w user_login req user preview) s
        (reviewed_plan w user_login req r preview.0 s) h k (with_plan-IsSilent user preview)

  with_repo-IsSilent : (user : UserRow) → IsSilent (with_repo w user_login req user)
  with_repo-IsSilent user s =
      let r = w.probes user.id (owner_name w user_login req) (repo_name w user_login req) in
      let (h, k) = probed-IsSilent r s in
      IsSilent-continue (with_preview w user_login req user) s (probed w user_login req r s) h k
        (with_preview-IsSilent user)

  with_user-IsSilent : (user : UserRow) → IsSilent (with_user w user_login req user)
  with_user-IsSilent user s =
      let o = owner_name w user_login req in
      let r = repo_name w user_login req in
      let (h, k) = own_repo-IsSilent o r s in
      IsSilent-continue (λ done. with_repo w user_login req user) s
        (own_repo w user_login req o r s) h k (λ done. with_repo-IsSilent user)

  pub authorise-IsSilent : IsSilent (authorise w user_login req)
  unfolding authorise
  authorise-IsSilent s =
      let (h, k) = user_of-IsSilent (find_by_login user_login s.db) s in
      IsSilent-continue (with_user w user_login req) s (allowed_user w user_login req s) h k
        with_user-IsSilent

claim_result-silent :
    (slug : Text) (s : Platform) (r : Db × SubdomainClaim)
    → ((claim_result slug s r).0.written ≡ s.written)
      × (ends_late (claim_result slug s r).1 ≡ false)
claim_result-silent slug s (db, SubdomainClaim.claim_ok) = (refl, refl)
claim_result-silent slug s (db, SubdomainClaim.taken) = (refl, refl)
claim_result-silent slug s (db, SubdomainClaim.no_user) = (refl, refl)

formed-IsSilent :
    (login_lc slug : Text) (r : Result SubdomainReason (Unit {0}))
    → IsSilent (formed login_lc slug r)
formed-IsSilent login_lc slug (err reason) s = (refl, refl)
formed-IsSilent login_lc slug (ok done) s =
    claim_result-silent slug s (set_subdomain login_lc (some slug) s.db)

claim_of-IsSilent :
    (user : UserRow) (login_lc app_name slug : Text)
    → IsSilent (claim_of user login_lc app_name slug)
unfolding claim_slug
claim_of-IsSilent user login_lc app_name [] s = (refl, refl)
claim_of-IsSilent user login_lc app_name (c ∷ slug) s =
    IsSilent-if (is_own (c ∷ slug) user.subdomain) _ _ (λ t. (refl, refl))
      (formed-IsSilent login_lc (c ∷ slug) (validate_subdomain_format (c ∷ slug))) s

pub claim-IsSilent :
    (user : UserRow) (login_lc app_name : Text) (requested : Option Text)
    → IsSilent (claim_subdomain_or_default user login_lc app_name requested)
claim-IsSilent user login_lc app_name requested =
    claim_of-IsSilent user login_lc app_name (requested_slug requested)
