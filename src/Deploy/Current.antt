-- ===== src/Deploy/Current.antt =====
-- `getCurrentDeployment` and what it reads, of deploy/deploy.service.ts.
use swkoo_kr.Prelude.{
  ℕ, Bool, true, not, ◌&&◌, Option, none, some, [], ◌∷◌, ◌++◌, if◌then◌else◌, ◌==◌, nat_eq, or_else,
  is_some, Result, ok, err, ◌>>=◌,
}
use swkoo_kr.Prelude.Texts.{Text, lit, text_eq, to_lower, is_space}
use swkoo_kr.Accounts.Db.{Db}
use swkoo_kr.Accounts.Users.{UserRow, find_by_login}
use swkoo_kr.Github.Commit.{HttpFailure, is_status}
use swkoo_kr.Deploy.Names.{sanitize_name, sanitize_name_to}
use swkoo_kr.Deploy.Storage.{after, skip_while, then_try}

unfoldable pub take_while : (ℕ → Bool) → Text → Text
take_while p [] = []
take_while p (c ∷ s) = let rest = take_while p s in if p c then c ∷ rest else []

abbrev non_empty : Text → Option Text
non_empty [] = none
non_empty (c ∷ s) = some (c ∷ s)

abbrev is_not_slash : ℕ → Bool
is_not_slash c = not (c == b'/')

-- `ghcr\.io\/[^/]+\/`, and what follows it
unfoldable pub after_owner : Text → Option Text
after_owner s = then_try (after (lit "ghcr.io/") s) λ a.
    then_try (non_empty (take_while is_not_slash a))
      λ owner. after (lit "/") (skip_while is_not_slash a)

-- `/repo:\s*ghcr\.io\/[^/]+\/(\S+)/` at the start of a text
unfoldable pub repo_here : Text → Option Text
repo_here s = then_try (after (lit "repo:") s) λ a.
    then_try (after_owner (skip_while is_space a))
      λ b. non_empty (take_while (λ c. not (is_space c)) b)

-- `/=ghcr\.io\/([^/]+)\/([^:]+)/` at the start of a text
unfoldable pub image_here : Text → Option Text
image_here s =
    then_try (after (lit "=") s)
      λ a. then_try (after_owner a) λ b. non_empty (take_while (λ c. not (c == b':')) b)

abbrev pub first_of {ℓ} : {A : Type ℓ} → Option A → Option A → Option A
first_of none later = later
first_of (some a) later = some a

-- A pattern that is not anchored: the first match.
unfoldable pub first_match : (Text → Option Text) → Text → Option Text
first_match here [] = here []
first_match here (c ∷ s) = let rest = first_match here s in first_of (here (c ∷ s)) rest

pub data DeploymentState : Type 0 where
  active deleting : DeploymentState

pub record CurrentDeployment : Type 0 where
  pub login : Text
  pub repo : Text
  pub app_name : Text
  pub live_url : Text
  pub state : DeploymentState

-- The annotation `argocd-image-updater.argoproj.io/image-list` of the application.
pub record CurrentApp : Type 0 where
  pub image_list : Option Text

pub data StateError : Type 0 where
  state_unavailable : StateError
  manifest_failed : HttpFailure → StateError

-- `resolveSubdomain`
abbrev own_subdomain : Option UserRow → Option Text
own_subdomain none = none
own_subdomain (some user) = user.subdomain

unfoldable pub default_subdomain : Text → Text → Text
default_subdomain login_lc app_name = sanitize_name_to 53 (login_lc ++ lit "-" ++ app_name)

unfoldable pub resolve_subdomain : Option UserRow → Text → Text → Text
resolve_subdomain user login_lc app_name =
    or_else (own_subdomain user) (default_subdomain login_lc app_name)

-- `readManifestFile`: a missing file is null.
unfoldable pub read_manifest_file : Result HttpFailure Text → Result HttpFailure (Option Text)
read_manifest_file (ok content) = ok (some content)
read_manifest_file (err e) = if is_status 404 e then ok none else err e

-- An empty file is falsy.
abbrev pub registered : Option Text → Option Text
registered none = none
registered (some content) = non_empty content

abbrev repo_in : (Text → Option Text) → Option Text → Option Text
repo_in here none = none
repo_in here (some s) = first_match here s

abbrev image_list_of : Option CurrentApp → Option Text
image_list_of none = none
image_list_of (some app) = app.image_list

abbrev pub user_repo : Option Text → Option CurrentApp → Option Text
user_repo registration app =
    first_of (repo_in repo_here registration) (repo_in image_here (image_list_of app))

abbrev live_url_of : Text → Text → Text
live_url_of subdomain apps_domain = lit "https://" ++ subdomain ++ lit "." ++ apps_domain

abbrev pub deployment_of : Text → Text → Option UserRow → Option Text → Text → CurrentDeployment
deployment_of apps_domain login_lc user registration repo = record {
  login = login_lc;
  repo = repo;
  app_name = sanitize_name repo;
  live_url = live_url_of (resolve_subdomain user login_lc (sanitize_name repo)) apps_domain;
  state = if is_some registration then DeploymentState.active else DeploymentState.deleting;
}

abbrev pub current_of :
    Text → Text → Option UserRow → Option Text → Option Text → Option CurrentDeployment
current_of apps_domain login_lc user registration none = none
current_of apps_domain login_lc user registration (some repo) =
    some (deployment_of apps_domain login_lc user registration repo)

-- What the control repository and Argo CD answer on a login in lower case.
pub record StateAnswers : Type 0 where
  pub argo_configured : Bool
  pub registration : Result HttpFailure Text
  pub app : Result HttpFailure (Option CurrentApp)

abbrev app_read :
    Bool → Result HttpFailure (Option CurrentApp) → Result StateError (Option CurrentApp)
app_read require_argo (ok app) = ok app
app_read require_argo (err e) = if require_argo then err StateError.state_unavailable else ok none

abbrev file_read : Result HttpFailure (Option Text) → Result StateError (Option Text)
file_read (ok content) = ok content
file_read (err e) = err (StateError.manifest_failed e)

-- `getCurrentDeployment`
unfoldable pub get_current_deployment :
    Text → StateAnswers → Text → Bool → Db → Result StateError (Option CurrentDeployment)
unfolding read_manifest_file
get_current_deployment apps_domain answers login require_argo db =
    if require_argo && not answers.argo_configured
    then err StateError.state_unavailable
    else (file_read (read_manifest_file answers.registration) >>= λ content.
        app_read require_argo answers.app >>= λ app. ok (
          current_of apps_domain (to_lower login) (find_by_login (to_lower login) db)
            (registered content) (user_repo (registered content) app)))

-- `getRecoveryRegistrationState`: whether the file and the application are there.
pub record RecoveryState : Type 0 where
  pub registration : Bool
  pub application : Bool

unfoldable pub get_recovery_registration_state : StateAnswers → Result StateError RecoveryState
unfolding read_manifest_file
get_recovery_registration_state answers =
    if answers.argo_configured
    then (file_read (read_manifest_file answers.registration) >>= λ content.
        app_read true answers.app >>= λ app.
        ok (record { registration = is_some content; application = is_some app }))
    else err StateError.state_unavailable
