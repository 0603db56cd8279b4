-- ===== src/Deploy/Cleanup/Tests.antt =====
-- The daily clean-up at concrete answers: of two old repositories GitHub deletes one.
use swkoo_kr.Prelude.{
  ◌+◌, ◌≡◌, refl, true, false, Option, none, some, List, [], ◌∷◌, if◌then◌else◌, ◌==◌, ok, err,
}
use swkoo_kr.Prelude.Texts.{Text, lit, text_eq, text_beq, to_lower, lower_unit}
use swkoo_kr.Accounts.Db.{Db}
use swkoo_kr.Accounts.Users.{audit}
use swkoo_kr.Accounts.Reach.{empty_db}
use swkoo_kr.Github.Commit.{HttpFailure}
use swkoo_kr.Github.Repositories.{
  RepoState, RepoApi, assert_permissions, get_installation_token_for_repo,
  get_installation_token_for_org, archived_from, list_archived_repos, delete_repo,
}
use swkoo_kr.Deploy.Cleanup.{Org, retention, cleanup_archived_deploy_repos}

abbrev refused : HttpFailure
refused = record { status = some 403; message = [] }

abbrev repo : Text → RepoApi
repo name = record {
  read = ok RepoState.archived;
  unarchive = ok tt;
  create = ok tt;
  archive = ok tt;
  delete = if name == lit "kept" then err refused else ok tt;
}

abbrev org : Org
org = record {
  deploy_owner = lit "swkoo";
  apps = record {
    repo_installation = λ owner name. ok 1;
    org_installation = λ name. ok 1;
    access_token = λ id names permissions. ok (lit "t");
  };
  read_page = λ page. ok (
      record { name = lit "old"; archived = true; updated_at = 5 }
      ∷ record { name = lit "kept"; archived = true; updated_at = 6 }
      ∷ record { name = lit "new"; archived = true; updated_at = 7 }
      ∷ record { name = lit "live"; archived = false; updated_at = 1 }
      ∷ []);
  repo = repo;
  names_json = λ names. [];
}

abbrev deleted : Option (Db × List Text) → Option (List Text)
deleted none = none
deleted (some (db, names)) = some names

outcomes :
    (deleted (cleanup_archived_deploy_repos org 1 (retention + 7) empty_db) ≡ some (lit "old" ∷ []))
    × (deleted (cleanup_archived_deploy_repos org 1 (retention + 5) empty_db) ≡ some [])
    × (deleted (cleanup_archived_deploy_repos org 0 (retention + 7) empty_db) ≡ none)
unfolding lit text_beq to_lower lower_unit audit assert_permissions get_installation_token_for_repo
    get_installation_token_for_org archived_from list_archived_repos delete_repo
    cleanup_archived_deploy_repos
outcomes = (refl, refl, refl)
