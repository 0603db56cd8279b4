-- ===== src/Deploy/Unregister.antt =====
-- `deleteDeployment` of deploy/deploy.service.ts.
pub mod Freed
use swkoo_kr.Prelude.{
  ℕ, Bool, true, false, Option, none, some, List, [], ◌∷◌, ◌++◌, if◌then◌else◌, Result, ok, err,
}
use swkoo_kr.Prelude.Texts.{Text, lit, to_lower, split}
use swkoo_kr.Accounts.Db.{Db, AuditLogInsert}
use swkoo_kr.Accounts.Users.{UserRow, find_by_login, audit}
use swkoo_kr.Accounts.Reservations.{release_admission_reservation}
use swkoo_kr.Domain.Repository
use swkoo_kr.Domain.Repository.{CustomDomainRow, Table, delete_by_login}
use swkoo_kr.Domain.Service.State.{target_of}
use swkoo_kr.Github.Commit.{CommitArgs, CommitError, GitData, HttpFailure, commit_files_atomic}
use swkoo_kr.Github.Repositories.{
  GithubApps, RepoApi, TokenError, get_installation_token_for_repo, archive_repo,
}
use swkoo_kr.Deploy.Names.{get_user_registration_path}
use swkoo_kr.Deploy.Source.{owner_part, name_part}
use swkoo_kr.Deploy.Handler.{
  Platform, Handler, Written, ◌>>=◌, ◌>>◌, pure, throw, audit_throw, change_db, wrote, continue,
}

pub data DeleteError : Type 0 where
  not_allowed no_existing_deployment : DeleteError
  no_token : TokenError → DeleteError
  not_committed : CommitError → DeleteError

pub record World : Type 0 where
  pub now : ℕ
  pub manifest_repo : Text
  pub manifest_branch : Text
  pub apps : GithubApps
  pub control_git : GitData
  pub commit_json : Text → Text

module _ (w : World) (user_login : Text) where
  abbrev pub owner_login : Text
  owner_login = to_lower user_login

  abbrev pub permitted : Option UserRow → Bool
  permitted none = false
  permitted (some user) = user.is_allowed

  abbrev entry : Text → Option Text → Option Text → Option Text → AuditLogInsert
  entry action target reason meta = record {
    actor = user_login;
    action = action;
    target = target;
    reason = reason;
    meta_json = meta;
  }

  abbrev pub delete_args : CommitArgs
  delete_args = record {
    branch = w.manifest_branch;
    files = [];
    message =
        lit "feat(deploy): unregister "
        ++ owner_login
        ++ lit " via swkoo.kr/deploy\n\nUser-initiated removal.";
    expected_head_sha = none;
    replace_dir_path = none;
    delete_paths = get_user_registration_path owner_login ∷ [];
  }

  abbrev pub committed : Result CommitError Text → Handler DeleteError Text
  committed (ok sha) s =
      continue (λ done. pure sha)
        (wrote (Written.unregistration (get_user_registration_path owner_login)) s)
  committed (err CommitError.nothing_to_commit) s =
      audit_throw w.now
        (entry (lit "DEPLOY_UNREGISTER") none (some (lit "NO_EXISTING_DEPLOYMENT")) none)
        DeleteError.no_existing_deployment s
  committed (err e) s = (s, err (DeleteError.not_committed e))

  abbrev pub with_token : Result TokenError Text → Handler DeleteError Text
  with_token (ok token) s = committed (commit_files_atomic w.control_git delete_args) s
  with_token (err e) s = (s, err (DeleteError.no_token e))

  -- The registration file is taken out of the control repository.
  unfoldable pub commit_removal : Handler DeleteError Text
  commit_removal = with_token (
      get_installation_token_for_repo w.apps (owner_part (split b'/' w.manifest_repo))
        (name_part (split b'/' w.manifest_repo)) ((lit "contents", lit "write") ∷ []))

  abbrev domain_entry : Text → CustomDomainRow → AuditLogInsert
  domain_entry commit row =
      entry (lit "DOMAIN_DELETED_BY_DEPLOY_DELETE")
        (some (target_of row.login row.app_name row.domain)) none (some (w.commit_json commit))

  unfoldable pub audit_domains : Text → List CustomDomainRow → Db → Db
  audit_domains commit [] db = db
  audit_domains commit (row ∷ rows) db =
      audit_domains commit rows (audit w.now (domain_entry commit row) db)

  abbrev pub without_domains : List CustomDomainRow → Table → Table
  without_domains [] t = t
  without_domains (row ∷ rows) t = (delete_by_login owner_login t).0

  -- What follows the commit; that the deploy repository could not be archived is only logged.
  unfoldable pub finish : Text → Platform → Platform
  finish commit s =
      let rows = Repository.find_by_login owner_login s.domains in
      record s {
        db = release_admission_reservation owner_login (
            audit w.now (entry (lit "DEPLOY_UNREGISTER") none none (some (w.commit_json commit)))
              (audit_domains commit rows s.db));
        domains = without_domains rows s.domains;
      }

  abbrev pub finished : Text → Handler DeleteError Text
  finished commit s = (finish commit s, ok commit)

  -- `deleteDeployment`
  unfoldable pub delete_deployment : Handler DeleteError Text
  delete_deployment s =
      if permitted (find_by_login user_login s.db)
      then continue finished (commit_removal s)
      else (s, err DeleteError.not_allowed)
