-- ===== src/Github/Repositories.antt =====
-- Tokens and repositories of the deploy organization.
pub mod Paging
use swkoo_kr.Prelude.{
  ℕ, zero, suc, ◌+◌, Bool, true, false, not, ◌&&◌, ◌||◌, Option, none, some, List, [], ◌∷◌, ◌++◌,
  if◌then◌else◌, ◌==◌, nat_eq, any, all, length, ltb, Result, ok, err, ◌>>=◌, map,
}
use swkoo_kr.Prelude.Texts.{Text, lit, text_eq, to_lower}
use swkoo_kr.Github.Commit.{HttpFailure, is_status}

pub data TokenError : Type 0 where
  permissions_required organization_restricted : TokenError
  installation_not_found : Text → TokenError
  token_request_failed : HttpFailure → TokenError

-- A scope and the access to it; what is no access is another text.
abbrev pub Permissions : Type 0
Permissions = List (Text × Text)

abbrev is_access : Text × Text → Bool
is_access p = p.1 == lit "read" || p.1 == lit "write"

-- `assertPermissions`
unfoldable pub assert_permissions : Permissions → Bool
assert_permissions [] = false
assert_permissions (p ∷ permissions) = all is_access (p ∷ permissions)

-- The installations and the tokens that GitHub answers with.
pub record GithubApps : Type 0 where
  pub repo_installation : Text → Text → Result HttpFailure ℕ
  pub org_installation : Text → Result HttpFailure ℕ
  pub access_token : ℕ → List Text → Permissions → Result HttpFailure Text

abbrev found_installation : Text → Result HttpFailure ℕ → Result TokenError ℕ
found_installation target (ok id) = ok id
found_installation target (err e) =
    if is_status 404 e
    then err (TokenError.installation_not_found target)
    else err (TokenError.token_request_failed e)

abbrev minted : Result HttpFailure Text → Result TokenError Text
minted (ok token) = ok token
minted (err e) = err (TokenError.token_request_failed e)

-- `getInstallationTokenForRepo`
unfoldable pub get_installation_token_for_repo :
    GithubApps → Text → Text → Permissions → Result TokenError Text
get_installation_token_for_repo apps owner repo permissions =
    if assert_permissions permissions
    then (found_installation (owner ++ lit "/" ++ repo) (apps.repo_installation owner repo)
        >>= λ id. minted (apps.access_token id (repo ∷ []) permissions))
    else err TokenError.permissions_required

pub data OrgPurpose : Type 0 where
  create_repository list_repositories : OrgPurpose

abbrev purpose_permissions : OrgPurpose → Permissions
purpose_permissions OrgPurpose.create_repository = (lit "administration", lit "write") ∷ []
purpose_permissions OrgPurpose.list_repositories = (lit "metadata", lit "read") ∷ []

-- `getInstallationTokenForOrg`; an empty text stands for a `deployOwner` that is not set.
unfoldable pub get_installation_token_for_org :
    GithubApps → Text → Text → OrgPurpose → Result TokenError Text
get_installation_token_for_org apps deploy_owner org purpose =
    if deploy_owner == [] || not (to_lower org == to_lower deploy_owner)
    then err TokenError.organization_restricted
    else found_installation (lit "org/" ++ org) (apps.org_installation org) >>= λ id.
        minted (apps.access_token id [] (purpose_permissions purpose))

pub data RepoState : Type 0 where
  missing live archived : RepoState

-- The requests that change a repository, as GitHub answers them.
pub record RepoApi : Type 0 where
  pub read : Result HttpFailure RepoState
  pub unarchive : Result HttpFailure (Unit {0})
  pub create : Result HttpFailure (Unit {0})
  pub archive : Result HttpFailure (Unit {0})
  pub delete : Result HttpFailure (Unit {0})

-- `ensureRepoInOrg`
unfoldable pub ensure_repo_in_org : RepoApi → Result HttpFailure (Unit {0})
ensure_repo_in_org api = elim api.read [
  | ok RepoState.archived ↦ api.unarchive
  | ok _ ↦ ok tt
  | err e ↦ if is_status 404 e then api.create else err e
]

abbrev unless_missing : Result HttpFailure (Unit {0}) → Result HttpFailure (Unit {0})
unless_missing (ok done) = ok done
unless_missing (err e) = if is_status 404 e then ok tt else err e

-- `deleteRepo`
unfoldable pub delete_repo : RepoApi → Result HttpFailure (Unit {0})
delete_repo api = unless_missing api.delete

-- `archiveRepo`
unfoldable pub archive_repo : RepoApi → Result HttpFailure (Unit {0})
archive_repo api = unless_missing api.archive

pub record OrgRepo : Type 0 where
  pub name : Text
  pub archived : Bool
  pub updated_at : ℕ

pub record ArchivedRepo : Type 0 where
  pub name : Text
  pub archived_since : ℕ

abbrev pub archived_of : List OrgRepo → List ArchivedRepo
archived_of [] = []
archived_of (r ∷ repos) =
    let rest = archived_of repos in
    if r.archived then record { name = r.name; archived_since = r.updated_at } ∷ rest else rest

-- The loop of `listArchivedRepos` from a page on; `none` where the rounds given are used up.
unfoldable pub archived_from :
    (ℕ → Result HttpFailure (List OrgRepo))
    → ℕ
    → ℕ
    → List ArchivedRepo
    → Option (Result HttpFailure (List ArchivedRepo))
archived_from read_page zero page out = none
archived_from read_page (suc rounds) page out = elim (read_page page) [
  | err e ↦ some (err e)
  | ok repos ↦ elim (ltb (length repos) 100) [
    | true ↦ some (ok (out ++ archived_of repos))
    | false ↦ archived_from read_page rounds (page + 1) (out ++ archived_of repos)
  ]
]

-- `listArchivedRepos`
unfoldable pub list_archived_repos :
    (ℕ → Result HttpFailure (List OrgRepo)) → ℕ → Option (Result HttpFailure (List ArchivedRepo))
unfolding archived_from
list_archived_repos read_page rounds = archived_from read_page rounds 1 []

-- `listUserPackageVersions`
unfoldable pub list_user_package_versions {ℓ} :
    {A : Type ℓ} → Result HttpFailure A → Result HttpFailure (Option A)
list_user_package_versions (ok versions) = ok (some versions)
list_user_package_versions (err e) = if is_status 404 e || is_status 403 e then ok none else err e
