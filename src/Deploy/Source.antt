-- ===== src/Deploy/Source.antt =====
-- deploy/source-setup.ts: the files that a deployment needs in the user's own repository.
pub mod Create
pub mod Missing
pub mod Planned
use swkoo_kr.Prelude.{
  ℕ, Bool, true, false, not, ◌&&◌, ◌||◌, Option, none, some, List, [], ◌∷◌, ◌++◌, if◌then◌else◌,
  ◌==◌, nat_eq, any, find, keep, ltb, Result, ok, err, ◌>>=◌, guard, ◌>>◌,
}
use swkoo_kr.Prelude.Texts.{Text, lit, text_eq, split}
use swkoo_kr.Github.Repositories.{
  GithubApps, TokenError, Permissions, get_installation_token_for_repo,
}
use swkoo_kr.Github.Commit.{HttpFailure, CommitError, CommitArgs, GitData, commit_files_atomic}

pub data FileAction : Type 0 where
  create kept review : FileAction

pub record SourceFile : Type 0 where
  pub path : Text
  pub action : FileAction
  pub before : Option Text
  pub after : Text

pub record SourceSetupPlan : Type 0 where
  pub repo : Text
  pub branch : Text
  pub sha : Text
  pub digest : Text
  pub files : List SourceFile

pub data SourceError : Type 0 where
  branch_not_main tree_incomplete not_reviewed needs_review : SourceError
  not_text unreadable : Text → SourceError
  http : HttpFailure → SourceError
  commit_failed : CommitError → SourceError
  app_not_installed : SourceError
  no_token : TokenError → SourceError

pub record SourceEntry : Type 0 where
  pub path : Text
  pub is_blob : Bool
  pub mode : Text
  pub size : ℕ
  pub sha : Text

pub record SourceTree : Type 0 where
  pub truncated : Bool
  pub entries : List SourceEntry

pub record Blob : Type 0 where
  pub encoding : Text
  pub size : ℕ
  pub text : Text  -- the content, decoded

-- What GitHub answers on the repository.
pub record SourceApi : Type 0 where
  pub default_branch : Result HttpFailure Text
  pub head : Result HttpFailure Text
  pub tree : Text → Result HttpFailure SourceTree
  pub blob : Text → Result HttpFailure Blob

-- `repo.split('/')`, of which the first two parts are read
abbrev pub owner_part : List Text → Text
owner_part [] = []
owner_part (w ∷ ws) = w

abbrev pub name_part : List Text → Text
name_part (w ∷ v ∷ ws) = v
name_part _ = []

abbrev pub repo_token : GithubApps → Text → Permissions → Result TokenError Text
repo_token apps repo permissions =
    get_installation_token_for_repo apps (owner_part (split b'/' repo))
      (name_part (split b'/' repo)) permissions

abbrev client_of : Result TokenError Text → Result SourceError Text
client_of (ok token) = ok token
client_of (err (TokenError.installation_not_found target)) = err SourceError.app_not_installed
client_of (err e) = err (SourceError.no_token e)

-- `client(repo)`: the token of the requests.
unfoldable pub client : GithubApps → Text → Result SourceError Text
client apps repo =
    client_of
      (repo_token apps repo ((lit "contents", lit "read") ∷ (lit "pull_requests", lit "read") ∷ []))

abbrev pub asked {ℓ} : {A : Type ℓ} → Result HttpFailure A → Result SourceError A
asked (ok a) = ok a
asked (err e) = err (SourceError.http e)

-- `.replace(/\r\n/g, '\n')`
unfoldable pub unix_lines : Text → Text
unix_lines [] = []
unix_lines (c ∷ []) = c ∷ []
unix_lines (c ∷ d ∷ s) =
    let rest = unix_lines (d ∷ s) in if c == 13 && d == 10 then rest else c ∷ rest

abbrev pub is_plain : SourceEntry → Bool
is_plain e =
    e.is_blob && (e.mode == lit "100644" || e.mode == lit "100755") && not (ltb 200000 e.size)

abbrev pub is_readable : Blob → Bool
is_readable b = b.encoding == lit "base64" && not (ltb 200000 b.size)

abbrev pub of_path : Text → SourceEntry → Bool
of_path path e = e.path == path

abbrev content_of : Text → Blob → Result SourceError (Option Text)
content_of path b = if is_readable b then ok (some b.text) else err (SourceError.unreadable path)

abbrev pub blob_content : Text → Result HttpFailure Blob → Result SourceError (Option Text)
blob_content path (ok b) = content_of path b
blob_content path (err e) = err (SourceError.http e)

-- The content that the path has at the commit, if it has one.
unfoldable pub read_before :
    SourceApi → Text → Option SourceEntry → Result SourceError (Option Text)
read_before api path none = ok none
read_before api path (some e) =
    if is_plain e then blob_content path (api.blob e.sha) else err (SourceError.not_text path)

unfoldable pub action_of : Option Text → Text → FileAction
action_of none after = FileAction.create
action_of (some before) after =
    if unix_lines before == unix_lines after then FileAction.kept else FileAction.review

abbrev pub file_of : Text → Text → Option Text → SourceFile
file_of path after before = record {
  path = path;
  action = action_of before after;
  before = before;
  after = after;
}

unfoldable pub inspect_files :
    SourceApi → List SourceEntry → List (Text × Text) → Result SourceError (List SourceFile)
inspect_files api entries [] = ok []
inspect_files api entries ((path, after) ∷ desired) =
    let rest = inspect_files api entries desired in
    read_before api path (find (of_path path) entries) >>= λ before.
    rest >>= λ files. ok (file_of path after before ∷ files)

module _ (digest_of : Text → Text → Text → List SourceFile → Text) where
  abbrev pub plan_of : Text → Text → Text → List SourceFile → SourceSetupPlan
  plan_of repo branch sha files = record {
    repo = repo;
    branch = branch;
    sha = sha;
    digest = digest_of repo branch sha files;
    files = files;
  }

  unfoldable pub inspect_tree :
      SourceApi
      → Text
      → List (Text × Text)
      → Text
      → Text
      → SourceTree
      → Result SourceError SourceSetupPlan
  inspect_tree api repo desired branch sha tree =
      if tree.truncated
      then err SourceError.tree_incomplete
      else (inspect_files api tree.entries desired >>= λ files. ok (plan_of repo branch sha files))

  unfoldable pub inspect_main :
      SourceApi → Text → List (Text × Text) → Text → Result SourceError SourceSetupPlan
  inspect_main api repo desired branch =
      if branch == lit "main"
      then (asked api.head >>= λ sha.
          asked (api.tree sha) >>= λ tree. inspect_tree api repo desired branch sha tree)
      else err SourceError.branch_not_main

  -- `inspect`; `digest_of` is the hash of what the plan says.
  unfoldable pub inspect :
      GithubApps → SourceApi → Text → List (Text × Text) → Result SourceError SourceSetupPlan
  inspect apps api repo desired = client apps repo >>= λ token.
      asked api.default_branch >>= λ branch. inspect_main api repo desired branch
