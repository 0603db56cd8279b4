-- ===== src/Deploy/Register.antt =====
-- `registerForUser` of deploy/deploy.service.ts. The three repositories are read and written by
-- the client of the GitHub App; what they answer is in `World`.
pub mod Claim
pub mod Publish
pub mod Checks
pub mod Silent
pub mod Steps
use swkoo_kr.Prelude.{
  ℕ, Bool, true, false, not, ◌&&◌, ◌||◌, Option, none, some, List, [], ◌∷◌, ◌++◌, if◌then◌else◌,
  ◌==◌, any, Result, ok, err,
}
use swkoo_kr.Prelude.Texts.{Text, lit, text_eq, to_lower, starts_with, split}
use swkoo_kr.Accounts.Db.{Db, AuditLogInsert}
use swkoo_kr.Accounts.Users.{UserRow, find_by_login}
use swkoo_kr.Access.Subdomain.{SubdomainReason}
use swkoo_kr.Domain.Repository.{Table}
use swkoo_kr.Github.Commit.{CommitError, GitData}
use swkoo_kr.Github.Repositories.{GithubApps, RepoApi, TokenError}
use swkoo_kr.Deploy.Names.{sanitize_name}
use swkoo_kr.Deploy.Storage.{StorageProfile}
use swkoo_kr.Deploy.Preview.{CheckKey, PreviewCheck, Probes, StackPreview, detect_stack}
use swkoo_kr.Deploy.Source.{
  SourceApi, SourceError, SourceFile, SourceSetupPlan, inspect, owner_part, name_part,
}
use swkoo_kr.Deploy.Source.Create.{assert_reviewed, create_missing, is_review}
use swkoo_kr.Deploy.Current.{
  CurrentDeployment, DeploymentState, StateAnswers, StateError, get_current_deployment,
}
use swkoo_kr.Deploy.Admission.{AdmissionError}
use swkoo_kr.Deploy.Handler.{
  Platform, Handler, Written, ◌>>=◌, ◌>>◌, pure, throw, of_result, audit_throw, continue,
}

pub record RegisterRequest : Type 0 where
  pub full_name : Text
  pub subdomain : Option Text
  pub setup_digest : Option Text
  pub setup_consent : Option Text

pub data DeployStep : Type 0 where
  source_ready manifests_saved registration_saved : DeployStep

pub data RegisterError : Type 0 where
  no_user not_allowed invalid_repo not_repo_owner existing_files_differ deployment_deleting
        app_already_exists subdomain_taken app_not_installed_on_user_repo source_changed
        source_uncertain :
      RegisterError
  not_admitted : AdmissionError → RegisterError
  no_token : Text → RegisterError
  stack_unsupported : CheckKey → RegisterError
  source_refused : SourceError → RegisterError
  state_unknown : StateError → RegisterError
  invalid_subdomain : SubdomainReason → RegisterError
  deploy_partial : List DeployStep → RegisterError

pub record RenderParams : Type 0 where
  pub login : Text
  pub app_name : Text
  pub image_repo : Text
  pub subdomain : Text
  pub port : ℕ
  pub uid : ℕ
  pub deploy_repo_full_name : Text
  pub source_repo : Text
  pub apps_domain : Text
  pub custom_domain : Option Text
  pub storage_profile : Option StorageProfile

-- What the services answer, the configuration, and the two components that are called: the
-- renderer of the templates and the admission of new deployments. A request that fails may have
-- been carried out at GitHub: `left` is what the requests of a failed step have left there.
pub record World : Type 0 where
  pub now : ℕ
  pub deploy_owner : Text
  pub manifest_repo : Text
  pub manifest_branch : Text
  pub apps_domain : Text
  pub probes : ℕ → Text → Text → Result Text Probes
  pub state_of : Text → StateAnswers
  pub apps : GithubApps
  pub source_api : Text → SourceApi
  pub source_git : Text → GitData
  pub digest_of : Text → Text → Text → List SourceFile → Text
  pub deploy_repo : Text → RepoApi
  pub deploy_git : Text → GitData
  pub control_git : GitData
  pub user_files : ℕ → Text → List (Text × Text)
  pub deploy_files : RenderParams → List (Text × Text)
  pub registration : RenderParams → Text
  pub stored_profile : Text → Option StorageProfile
  pub left : DeployStep → List Written
  pub reserve : Text → Db → Db × Result AdmissionError (Unit {0})
  pub preview_json : StackPreview → Text
  pub register_json : RenderParams → SourceSetupPlan → Text → Text → Text → Text

-- What the checks in front of the first change have found.
pub record Authorised : Type 0 where
  pub user : UserRow
  pub owner : Text
  pub repo : Text
  pub port : ℕ
  pub profile : Option StorageProfile
  pub plan : SourceSetupPlan
  pub current : Option CurrentDeployment

module _ (w : World) (user_login : Text) (req : RegisterRequest) where
  abbrev pub login_lc : Text
  login_lc = to_lower user_login

  abbrev pub denied : Text → Option Text → AuditLogInsert
  denied reason meta = record {
    actor = user_login;
    action = lit "ACCESS_DENIED";
    target = some req.full_name;
    reason = some reason;
    meta_json = meta;
  }

  abbrev pub user_of : Option UserRow → Handler RegisterError UserRow
  user_of none = throw RegisterError.no_user
  user_of (some user) =
      if user.is_allowed
      then pure user
      else audit_throw w.now (denied (lit "NOT_ALLOWED") none) RegisterError.not_allowed

  abbrev pub allowed_user : Handler RegisterError UserRow
  allowed_user s = user_of (find_by_login user_login s.db) s

  -- The owner and the repository of `fullName`, which must be the user's own.
  abbrev pub own_repo : Text → Text → Handler RegisterError (Unit {0})
  own_repo owner repo =
      if owner == [] || repo == []
      then throw RegisterError.invalid_repo
      else if to_lower owner == login_lc
      then pure tt
      else audit_throw w.now (denied (lit "NOT_REPO_OWNER") none) RegisterError.not_repo_owner

  abbrev pub supported : StackPreview → Handler RegisterError (ℕ × Option StorageProfile)
  supported (StackPreview.nextjs name port engine checks profile) = pure (port, profile)
  supported (StackPreview.unsupported key checks) =
      audit_throw w.now
        (denied (lit "STACK_UNSUPPORTED")
          (some (w.preview_json (StackPreview.unsupported key checks))))
        (RegisterError.stack_unsupported key)

  abbrev pub probed : Result Text Probes → Handler RegisterError (ℕ × Option StorageProfile)
  probed (ok p) = supported (detect_stack p)
  probed (err message) = throw (RegisterError.no_token message)

  abbrev pub sourced {ℓ} : {A : Type ℓ} → Result SourceError A → Handler RegisterError A
  sourced (ok a) = pure a
  sourced (err e) = throw (RegisterError.source_refused e)

  abbrev pub image_repo : Text → Text
  image_repo repo = lit "ghcr.io/" ++ login_lc ++ lit "/" ++ to_lower repo

  abbrev pub without_review : SourceSetupPlan → Handler RegisterError SourceSetupPlan
  without_review plan =
      if any is_review plan.files then throw RegisterError.existing_files_differ else pure plan

  abbrev pub with_consent : SourceSetupPlan → Handler RegisterError SourceSetupPlan
  with_consent plan =
      sourced (assert_reviewed plan req.setup_digest req.setup_consent) >> without_review plan

  abbrev pub inspected : Text → ℕ → Result SourceError SourceSetupPlan
  inspected repo port =
      inspect w.digest_of w.apps (w.source_api req.full_name) req.full_name
        (w.user_files port (image_repo repo))

  abbrev pub reviewed_plan : Text → ℕ → Handler RegisterError SourceSetupPlan
  reviewed_plan repo port = sourced (inspected repo port) >>= with_consent

  abbrev pub is_deleting : DeploymentState → Bool
  is_deleting DeploymentState.deleting = true
  is_deleting DeploymentState.active = false

  -- One application per account, and none while it is being deleted.
  abbrev pub only_app :
      Text → Option CurrentDeployment → Handler RegisterError (Option CurrentDeployment)
  only_app repo none = pure none
  only_app repo (some current) =
      if is_deleting current.state
      then throw RegisterError.deployment_deleting
      else if to_lower current.repo == to_lower repo
      then pure (some current)
      else throw RegisterError.app_already_exists

  abbrev pub stated {ℓ} : {A : Type ℓ} → Result StateError A → Handler RegisterError A
  stated (ok a) = pure a
  stated (err e) = throw (RegisterError.state_unknown e)

  abbrev pub current_now : Handler RegisterError (Option CurrentDeployment)
  current_now s =
      stated (get_current_deployment w.apps_domain (w.state_of login_lc) user_login true s.db) s

  abbrev pub owner_name : Text
  owner_name = owner_part (split b'/' req.full_name)

  abbrev pub repo_name : Text
  repo_name = name_part (split b'/' req.full_name)

  abbrev pub authorised :
      UserRow → ℕ × Option StorageProfile → SourceSetupPlan → Option CurrentDeployment → Authorised
  authorised user preview plan current = record {
    user = user;
    owner = owner_name;
    repo = repo_name;
    port = preview.0;
    profile = preview.1;
    plan = plan;
    current = current;
  }

  abbrev pub with_current :
      UserRow
      → ℕ × Option StorageProfile
      → SourceSetupPlan
      → Option CurrentDeployment
      → Handler RegisterError Authorised
  with_current user preview plan found =
      only_app repo_name found >>= λ current. pure (authorised user preview plan current)

  abbrev pub with_plan :
      UserRow → ℕ × Option StorageProfile → SourceSetupPlan → Handler RegisterError Authorised
  with_plan user preview plan = current_now >>= with_current user preview plan

  abbrev pub with_preview : UserRow → ℕ × Option StorageProfile → Handler RegisterError Authorised
  with_preview user preview = reviewed_plan repo_name preview.0 >>= with_plan user preview

  abbrev pub with_repo : UserRow → Handler RegisterError Authorised
  with_repo user = probed (w.probes user.id owner_name repo_name) >>= with_preview user

  abbrev pub with_user : UserRow → Handler RegisterError Authorised
  with_user user = own_repo owner_name repo_name >> with_repo user

  -- The checks of `registerForUser` in front of its first change, in their order.
  unfoldable pub authorise : Handler RegisterError Authorised
  authorise = allowed_user >>= with_user
