-- ===== src/Deploy/Cleanup.antt =====
-- deploy/cleanup.service.ts: what is thirty days old is deleted for good, of the accounts and of the
-- archived repositories. The scans that follow are another service's.
mod Tests
use swkoo_kr.Prelude.{
  ℕ, ◌-◌, ◌*◌, ◌+◌, Bool, true, false, Option, none, some, List, [], ◌∷◌, ◌++◌, if◌then◌else◌, keep,
  length, map, ltb, Result, ok, err, nat_beq,
}
use swkoo_kr.Prelude.Texts.{Text, lit}
use swkoo_kr.Prelude.Integers.{decimal}
use swkoo_kr.Accounts.Db.{Db, AuditLogInsert}
use swkoo_kr.Accounts.Users.{audit}
use swkoo_kr.Accounts.Erasure.{hard_delete_old_users}
use swkoo_kr.Github.Commit.{HttpFailure}
use swkoo_kr.Github.Repositories.{
  GithubApps, OrgRepo, ArchivedRepo, OrgPurpose, TokenError, RepoApi,
  get_installation_token_for_org, get_installation_token_for_repo, list_archived_repos, delete_repo,
}

abbrev pub retention : ℕ
retention = 30 * (24 * 60 * 60 * 1000)

-- The clock is later than thirty days after 1970.
abbrev pub cutoff : ℕ → ℕ
cutoff now = now - retention

abbrev users_deleted : (ℕ → Text) → ℕ → ℕ → AuditLogInsert
users_deleted iso now count = record {
  actor = lit "system";
  action = lit "CLEANUP_HARD_DELETE_USERS";
  target = none;
  reason = none;
  meta_json =
      some (
        lit "{\"count\":"
        ++ decimal count
        ++ lit ",\"cutoff\":\""
        ++ iso (cutoff now)
        ++ lit "\"}");
}

abbrev audit_users : (ℕ → Text) → ℕ → Db × ℕ → Db
audit_users iso now (db, deleted) =
    if ltb 0 deleted then audit now (users_deleted iso now deleted) db else db

-- `cleanupSoftDeletedUsers`; `iso` is `Date.prototype.toISOString`.
unfoldable pub cleanup_soft_deleted_users : (ℕ → Text) → ℕ → Db → Db
cleanup_soft_deleted_users iso now db = audit_users iso now (hard_delete_old_users (cutoff now) db)

-- GitHub's answers, and `JSON.stringify` of the names.
pub record Org : Type 0 where
  pub deploy_owner : Text
  pub apps : GithubApps
  pub read_page : ℕ → Result HttpFailure (List OrgRepo)
  pub repo : Text → RepoApi
  pub names_json : List Text → Text

abbrev pub is_past : ℕ → ArchivedRepo → Bool
is_past now r = ltb r.archived_since (cutoff now)

-- A repository whose deletion fails is left for the next day.
abbrev delete_with : Org → Text → Result TokenError Text → Bool
delete_with org name (err e) = false
delete_with org name (ok token) = elim (delete_repo (org.repo name)) [
  | ok done ↦ true
  | err e ↦ false
]

abbrev is_deleted : Org → ArchivedRepo → Bool
is_deleted org r = delete_with org r.name (
    get_installation_token_for_repo org.apps org.deploy_owner r.name
      ((lit "administration", lit "write") ∷ []))

abbrev names : List ArchivedRepo → List Text
names repos = map (λ (r : ArchivedRepo). r.name) repos

abbrev repos_deleted : Org → List ArchivedRepo → AuditLogInsert
repos_deleted org expired = record {
  actor = lit "system";
  action = lit "CLEANUP_HARD_DELETE_REPOS";
  target = none;
  reason = none;
  meta_json = some (
      lit "{\"count\":"
      ++ decimal (length expired)
      ++ lit ",\"names\":"
      ++ org.names_json (names expired)
      ++ lit "}");
}

-- The repositories that are deleted; the entry of the audit log names all that are past.
abbrev delete_expired : Org → ℕ → Db → List ArchivedRepo → Db × List Text
delete_expired org now db [] = (db, [])
delete_expired org now db (r ∷ rs) =
    (audit now (repos_deleted org (r ∷ rs)) db, names (keep (is_deleted org) (r ∷ rs)))

abbrev clean_archived : Org → ℕ → Db → Result HttpFailure (List ArchivedRepo) → Db × List Text
clean_archived org now db (err e) = (db, [])
clean_archived org now db (ok archived) = delete_expired org now db (keep (is_past now) archived)

abbrev clean_with_token : Org → ℕ → ℕ → Db → Result TokenError Text → Option (Db × List Text)
clean_with_token org rounds now db (err e) = some (db, [])
clean_with_token org rounds now db (ok token) = elim (list_archived_repos org.read_page rounds) [
  | none ↦ none
  | some listed ↦ some (clean_archived org now db listed)
]

-- `cleanupArchivedDeployRepos`; `none` where the rounds for the listing are used up.
unfoldable pub cleanup_archived_deploy_repos : Org → ℕ → ℕ → Db → Option (Db × List Text)
cleanup_archived_deploy_repos org rounds now db = clean_with_token org rounds now db (
    get_installation_token_for_org org.apps org.deploy_owner org.deploy_owner
      OrgPurpose.list_repositories)

-- `runDailyCleanup`, up to the scans
abbrev pub run_daily_cleanup : (ℕ → Text) → Org → ℕ → ℕ → Db → Option (Db × List Text)
run_daily_cleanup iso org rounds now db =
    cleanup_archived_deploy_repos org rounds now (cleanup_soft_deleted_users iso now db)
