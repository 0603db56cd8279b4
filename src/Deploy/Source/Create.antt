-- ===== src/Deploy/Source/Create.antt =====
-- `assertReviewed` and `createMissing`: the missing files are created.
use swkoo_kr.Prelude.{
  Bool, true, false, ◌&&◌, Option, none, some, List, [], ◌∷◌, if◌then◌else◌, ◌==◌, nat_eq, any,
  Result, ok, err, ◌>>=◌, guard,
}
use swkoo_kr.Prelude.Texts.{Text, lit, text_eq}
use swkoo_kr.Github.Repositories.{GithubApps, TokenError}
use swkoo_kr.Github.Commit.{CommitError, CommitArgs, GitData, commit_files_atomic}
use swkoo_kr.Deploy.Source.{FileAction, SourceFile, SourceSetupPlan, SourceError, repo_token}

abbrev pub source_setup_consent : Text
source_setup_consent = lit "source-setup-v1"

abbrev is_text_of : Text → Option Text → Bool
is_text_of s none = false
is_text_of s (some t) = t == s

-- `assertReviewed`
unfoldable pub assert_reviewed :
    SourceSetupPlan → Option Text → Option Text → Result SourceError (Unit {0})
assert_reviewed plan digest consent =
    guard (is_text_of source_setup_consent consent && is_text_of plan.digest digest)
      SourceError.not_reviewed

abbrev pub is_review : SourceFile → Bool
is_review f = elim f.action [ FileAction.review ↦ true | _ ↦ false ]

abbrev pub is_create : SourceFile → Bool
is_create f = elim f.action [ FileAction.create ↦ true | _ ↦ false ]

unfoldable pub created : List SourceFile → List (Text × Text)
created [] = []
created (f ∷ files) =
    let rest = created files in if is_create f then (f.path, f.after) ∷ rest else rest

abbrev pub missing_args : SourceSetupPlan → CommitArgs
missing_args plan = record {
  branch = plan.branch;
  files = created plan.files;
  message = lit "chore: add user-approved swkoo.kr deployment files";
  expected_head_sha = some plan.sha;
  replace_dir_path = none;
  delete_paths = [];
}

abbrev committed : Result CommitError Text → Result SourceError Text
committed (ok sha) = ok sha
committed (err e) = err (SourceError.commit_failed e)

abbrev token_of : Result TokenError Text → Result SourceError Text
token_of (ok token) = ok token
token_of (err e) = err (SourceError.no_token e)

abbrev pub write_token : GithubApps → SourceSetupPlan → Result SourceError Text
write_token apps plan = token_of (
    repo_token apps plan.repo ((lit "contents", lit "write") ∷ (lit "workflows", lit "write") ∷ []))

unfoldable pub commit_missing :
    GithubApps → GitData → SourceSetupPlan → List (Text × Text) → Result SourceError Text
commit_missing apps git plan [] = ok plan.sha
commit_missing apps git plan (f ∷ files) =
    write_token apps plan >>= λ token. committed (commit_files_atomic git (missing_args plan))

-- `createMissing`
unfoldable pub create_missing : GithubApps → GitData → SourceSetupPlan → Result SourceError Text
create_missing apps git plan =
    if any is_review plan.files
    then err SourceError.needs_review
    else commit_missing apps git plan (created plan.files)
