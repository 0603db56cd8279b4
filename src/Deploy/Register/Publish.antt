-- ===== src/Deploy/Register/Publish.antt =====
-- `registerForUser` from the admission on: the changes that it makes.
use swkoo_kr.Prelude.{Option, none, some, List, [], ◌∷◌, ◌++◌, Result, ok, err}
use swkoo_kr.Prelude.Base
use swkoo_kr.Prelude.Texts.{Text, lit, split}
use swkoo_kr.Accounts.Db.{Db, AuditLogInsert}
use swkoo_kr.Accounts.Users.{audit}
use swkoo_kr.Domain.Repository.{CustomDomainRow, find_for_render}
use swkoo_kr.Github.Commit.{CommitArgs, CommitError, HttpFailure, commit_files_atomic}
use swkoo_kr.Github.Repositories.{
  OrgPurpose, TokenError, Permissions, get_installation_token_for_org,
  get_installation_token_for_repo, ensure_repo_in_org,
}
use swkoo_kr.Deploy.Names.{sanitize_name, get_user_registration_path, get_user_deploy_repo_name}
use swkoo_kr.Deploy.Storage.{effective_storage_profile}
use swkoo_kr.Deploy.Source.{SourceError, owner_part, name_part}
use swkoo_kr.Deploy.Source.Create.{create_missing, created}
use swkoo_kr.Deploy.Current.{CurrentDeployment}
use swkoo_kr.Deploy.Admission.{AdmissionError}
use swkoo_kr.Deploy.Handler.{
  Platform, Handler, Written, ◌>>=◌, ◌>>◌, pure, change_db, wrote, continue,
}
use swkoo_kr.Deploy.Register.{
  World, RegisterRequest, RegisterError, DeployStep, RenderParams, Authorised, login_lc, image_repo,
  authorise,
}
use swkoo_kr.Deploy.Register.Claim.{claim_subdomain_or_default}

-- Why a commit to one of the platform's repositories fails.
pub data PublishError : Type 0 where
  no_token : TokenError → PublishError
  not_ensured : HttpFailure → PublishError
  not_committed : CommitError → PublishError

pub record RegisterResponse : Type 0 where
  pub full_name : Text
  pub subdomain : Text
  pub user_repo_commit : Text
  pub manifest_repo_commit : Text

abbrev tokened : Result TokenError Text → Result PublishError Text
tokened (ok token) = ok token
tokened (err e) = err (PublishError.no_token e)

abbrev ensured : Result HttpFailure (Unit {0}) → Result PublishError (Unit {0})
ensured (ok done) = ok done
ensured (err e) = err (PublishError.not_ensured e)

abbrev published : Result CommitError Text → Result PublishError Text
published (ok sha) = ok sha
published (err e) = err (PublishError.not_committed e)

abbrev write_contents : Permissions
write_contents = (lit "contents", lit "write") ∷ []

abbrev commit_args : Text → List (Text × Text) → Text → CommitArgs
commit_args branch files message = record {
  branch = branch;
  files = files;
  message = message;
  expected_head_sha = none;
  replace_dir_path = none;
  delete_paths = [];
}

module _ (w : World) where
  abbrev live_url : RenderParams → Text
  live_url p = lit "https://" ++ p.subdomain ++ lit "." ++ w.apps_domain

  abbrev deploy_message : RenderParams → Text
  deploy_message p =
      lit "feat: deploy "
      ++ p.app_name
      ++ lit "\n\nImage: "
      ++ p.image_repo
      ++ lit ":latest\nURL: "
      ++ live_url p

  abbrev register_message : Text → RenderParams → Text
  register_message user_login p =
      lit "feat(deploy): register "
      ++ p.login
      ++ lit "/"
      ++ p.app_name
      ++ lit " via swkoo.kr/deploy\n\nUser: "
      ++ user_login
      ++ lit "\nApp: "
      ++ p.app_name
      ++ lit "\nDeployRepo: "
      ++ p.deploy_repo_full_name
      ++ lit "\nURL: "
      ++ live_url p

  -- The deploy repository is made if it is missing, and takes the manifests.
  unfoldable pub save_manifests : RenderParams → Result PublishError Text
  save_manifests p =
      Base.◌>>=◌
        (tokened (
          get_installation_token_for_org w.apps w.deploy_owner w.deploy_owner
            OrgPurpose.create_repository))
        λ org_token. Base.◌>>=◌ (ensured (ensure_repo_in_org (w.deploy_repo p.login))) λ done.
          Base.◌>>=◌
            (tokened (get_installation_token_for_repo w.apps w.deploy_owner p.login write_contents))
            λ token. published (
              commit_files_atomic (w.deploy_git p.login)
                (commit_args (lit "main") (w.deploy_files p) (deploy_message p)))

  -- The registration file is committed to the control repository.
  unfoldable pub save_registration : Text → RenderParams → Result PublishError Text
  save_registration user_login p =
      Base.◌>>=◌
        (tokened (
          get_installation_token_for_repo w.apps (owner_part (split b'/' w.manifest_repo))
            (name_part (split b'/' w.manifest_repo)) write_contents))
        λ token. published (
          commit_files_atomic w.control_git (
            commit_args w.manifest_branch
              ((get_user_registration_path p.login, w.registration p) ∷ [])
              (register_message user_login p)))

abbrev pub source_error : SourceError → RegisterError
source_error (SourceError.no_token (TokenError.installation_not_found target)) =
    RegisterError.app_not_installed_on_user_repo
source_error (SourceError.commit_failed CommitError.source_changed) = RegisterError.source_changed
source_error _ = RegisterError.source_uncertain

-- A step that fails leaves what its requests have done.
abbrev pub leave : World → DeployStep → Platform → Platform
leave w step s = record s { written = s.written ++ w.left step }

-- The error of a step is dropped: only the steps that were completed are told.
abbrev pub step_of :
    World
    → DeployStep
    → List DeployStep
    → Written
    → Result PublishError Text
    → Handler RegisterError Text
step_of w step completed written (ok sha) s = continue (λ done. pure sha) (wrote written s)
step_of w step completed written (err e) s =
    (leave w step s, err (RegisterError.deploy_partial completed))

abbrev pub reserved :
    Platform → Db × Result AdmissionError (Unit {0}) → Platform × Result RegisterError (Unit {0})
reserved s (db, ok done) = (record s { db = db }, ok done)
reserved s (db, err e) = (record s { db = db }, err (RegisterError.not_admitted e))

abbrev custom_domain_of : Option CustomDomainRow → Option Text
custom_domain_of none = none
custom_domain_of (some row) = some row.domain

module _ (w : World) (user_login : Text) (req : RegisterRequest) where
  abbrev pub params_of : Authorised → Text → Option Text → RenderParams
  params_of a subdomain domain = record {
    login = login_lc w user_login req;
    app_name = sanitize_name a.repo;
    image_repo = image_repo w user_login req a.repo;
    subdomain = subdomain;
    port = a.port;
    uid = 1000;
    deploy_repo_full_name =
        w.deploy_owner ++ lit "/" ++ get_user_deploy_repo_name (login_lc w user_login req);
    source_repo = a.owner ++ lit "/" ++ a.repo;
    apps_domain = w.apps_domain;
    custom_domain = domain;
    storage_profile =
        effective_storage_profile a.profile (w.stored_profile (login_lc w user_login req));
  }

  abbrev pub registered_entry : RenderParams → Authorised → Text → Text → Text → AuditLogInsert
  registered_entry p a user_repo_commit deploy_repo_commit manifest_repo_commit = record {
    actor = user_login;
    action = lit "DEPLOY_REGISTER";
    target = some req.full_name;
    reason = none;
    meta_json =
        some (w.register_json p a.plan user_repo_commit deploy_repo_commit manifest_repo_commit);
  }

  abbrev pub admitted : Option CurrentDeployment → Handler RegisterError (Unit {0})
  admitted (some current) s = (s, ok tt)
  admitted none s = reserved s (w.reserve (login_lc w user_login req) s.db)

  -- The files that are created; a failure is told as uncertain, since they may be there.
  abbrev pub source_commit : Authorised → Result SourceError Text → Handler RegisterError Text
  source_commit a (ok sha) s =
      continue (λ done. pure sha)
        (wrote (Written.source_files req.full_name (created a.plan.files)) s)
  source_commit a (err e) s = (leave w DeployStep.source_ready s, err (source_error e))

  abbrev pub domain_now : Authorised → Handler RegisterError (Option Text)
  domain_now a s = (
    s,
    ok (
        custom_domain_of
          (find_for_render (login_lc w user_login req) (sanitize_name a.repo) s.domains)),
  )

  abbrev pub recorded :
      Authorised → RenderParams → Text → Text → Text → Handler RegisterError RegisterResponse
  recorded a p user_repo_commit deploy_repo_commit manifest_repo_commit =
      change_db (
        audit w.now (registered_entry p a user_repo_commit deploy_repo_commit manifest_repo_commit))
      >> pure (record {
        full_name = req.full_name;
        subdomain = p.subdomain;
        user_repo_commit = user_repo_commit;
        manifest_repo_commit = manifest_repo_commit;
      })

  abbrev pub with_manifests :
      Authorised → RenderParams → Text → Text → Handler RegisterError RegisterResponse
  with_manifests a p user_repo_commit deploy_repo_commit =
      step_of w DeployStep.registration_saved
        (DeployStep.source_ready ∷ DeployStep.manifests_saved ∷ [])
        (Written.registration (get_user_registration_path p.login) (w.registration p))
        (save_registration w user_login p)
      >>= recorded a p user_repo_commit deploy_repo_commit

  abbrev pub with_source : Authorised → RenderParams → Text → Handler RegisterError RegisterResponse
  with_source a p user_repo_commit =
      step_of w DeployStep.manifests_saved (DeployStep.source_ready ∷ [])
        (Written.deploy_files (w.deploy_files p)) (save_manifests w p)
      >>= with_manifests a p user_repo_commit

  -- The three repositories are written in turn.
  unfoldable pub publish : Authorised → RenderParams → Handler RegisterError RegisterResponse
  publish a p =
      source_commit a (create_missing w.apps (w.source_git req.full_name) a.plan)
      >>= with_source a p

  abbrev pub with_subdomain : Authorised → Text → Handler RegisterError RegisterResponse
  with_subdomain a subdomain = domain_now a >>= λ domain. publish a (params_of a subdomain domain)

  abbrev pub claimed : Authorised → Handler RegisterError Text
  claimed a =
      claim_subdomain_or_default a.user (login_lc w user_login req) (sanitize_name a.repo)
        req.subdomain

  abbrev pub deploy : Authorised → Handler RegisterError RegisterResponse
  deploy a = admitted a.current >> (claimed a >>= with_subdomain a)

  -- `registerForUser`
  unfoldable pub register_for_user : Handler RegisterError RegisterResponse
  register_for_user = authorise w user_login req >>= deploy
