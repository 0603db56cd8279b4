-- ===== src/Deploy/Tests/Requests.antt =====
-- Ann previews, reviews, registers and deletes a deployment.
use swkoo_kr.Prelude.{
  ◌≡◌, refl, ◌⊎◌, true, false, Option, none, some, List, [], ◌∷◌, Result, ok, err, All,
}
use swkoo_kr.Prelude.Texts.{
  Text, lit, text_eq, text_beq, to_lower, lower_unit, split, starts_with, ends_with, includes, trim,
  trim_start, trim_end,
}
use swkoo_kr.Prelude.Maps.{lookup}
use swkoo_kr.Accounts.Users.{find_by_login, audit, set_subdomain, store, apart}
use swkoo_kr.Accounts.Reservations.{reserve_admission, release_admission_reservation}
use swkoo_kr.Accounts.Reach.{empty_db}
use swkoo_kr.Accounts.Tests.{ann}
use swkoo_kr.Domain.Repository.{find_for_render, find_by_login_app}
use swkoo_kr.Access.Subdomain.{validate_subdomain_format, is_format, reserved}
use swkoo_kr.Github.Commit.{
  HttpFailure, path_deletions, create_blobs, commit_tree, commit_entries, commit_from, commit_on,
  commit_files_atomic,
}
use swkoo_kr.Github.Repositories.{
  GithubApps, RepoState, assert_permissions, get_installation_token_for_repo,
  get_installation_token_for_org, ensure_repo_in_org,
}
use swkoo_kr.Github.Tests.{git}
use swkoo_kr.Deploy.Names.{sanitize_name_to, replace_runs, drop_dashes, drop_end_dashes}
use swkoo_kr.Deploy.Storage.{
  StorageProfile, InitMode, after, skip_while, until_brace, datasource_here, datasource_block,
  sqlite_here, env_url_here, somewhere, effective_storage_profile,
}
use swkoo_kr.Deploy.Preview.{
  Package, Probes, read_package, lockfile_checks, schema_storage, schema_checks, detect_stack,
}
use swkoo_kr.Deploy.Preview.Deployable.{is_deployable, is_nextjs, detect_stack-is_deployable}
use swkoo_kr.Deploy.Source.{
  SourceApi, SourceFile, SourceSetupPlan, SourceTree, FileAction, client, unix_lines, read_before,
  action_of, inspect_files, inspect_tree, inspect_main, inspect,
}
use swkoo_kr.Deploy.Source.Create.{
  assert_reviewed, created, commit_missing, create_missing, is_review,
}
use swkoo_kr.Deploy.Source.Missing.{IsCreation, create_missing-creates}
use swkoo_kr.Deploy.Current.{
  take_while, after_owner, repo_here, image_here, first_match, default_subdomain, resolve_subdomain,
  read_manifest_file, get_current_deployment,
}
use swkoo_kr.Deploy.Handler.{Platform, Written}
use swkoo_kr.Deploy.Register.{World, RegisterRequest, RegisterError, Authorised, authorise}
use swkoo_kr.Deploy.Register.Claim.{claim_slug}
use swkoo_kr.Deploy.Register.Publish.{
  RegisterResponse, save_manifests, save_registration, publish, register_for_user,
}
use swkoo_kr.Deploy.Register.Checks.{IsAuthorised}
use swkoo_kr.Deploy.Register.Steps.{register_for_user-IsAuthorised}
use swkoo_kr.Deploy.Unregister
use swkoo_kr.Deploy.Unregister.{audit_domains, commit_removal, finish, delete_deployment}

run : Unit {0}
unfolding lit text_beq to_lower lower_unit split starts_with ends_with includes trim trim_start
    trim_end lookup find_by_login audit set_subdomain store apart reserve_admission
    release_admission_reservation find_for_render find_by_login_app validate_subdomain_format
    is_format reserved path_deletions create_blobs commit_tree commit_entries commit_from commit_on
    commit_files_atomic assert_permissions get_installation_token_for_repo
    get_installation_token_for_org ensure_repo_in_org sanitize_name_to replace_runs drop_dashes
    drop_end_dashes after skip_while until_brace datasource_here datasource_block sqlite_here
    env_url_here somewhere effective_storage_profile read_package lockfile_checks schema_storage
    schema_checks detect_stack is_deployable client unix_lines read_before action_of inspect_files
    inspect_tree inspect_main inspect assert_reviewed created commit_missing create_missing
    take_while after_owner repo_here image_here first_match default_subdomain resolve_subdomain
    read_manifest_file get_current_deployment authorise claim_slug save_manifests save_registration
    publish register_for_user audit_domains commit_removal finish delete_deployment
run = tt

abbrev missing : HttpFailure
missing = record { status = some 404; message = [] }

abbrev next_app : Package
next_app = record {
  name = some (lit "shop");
  dependencies = (lit "next", lit "15") ∷ (lit "prisma", lit "6") ∷ [];
  dev_dependencies = [];
  scripts = (lit "build", lit "next build") ∷ [];
  node_engine = none;
}

abbrev probes : Probes
probes = record {
  branch = ok (lit "main");
  pkg = ok (some next_app);
  lockfile = ok tt;
  schema = ok (lit "datasource db {\n provider = \"sqlite\"\n url = env(\"DATABASE_URL\")\n}\n");
  migrations = ok (true ∷ []);
}

abbrev apps : GithubApps
apps = record {
  repo_installation = λ owner repo. ok 1;
  org_installation = λ org. ok 2;
  access_token = λ id repositories permissions. ok (lit "token");
}

abbrev source_api : SourceApi
source_api = record {
  default_branch = ok (lit "main");
  head = ok (lit "base");
  tree = λ sha. ok (record { truncated = false; entries = [] });
  blob = λ sha. err missing;
}

abbrev digest_of : Text → Text → Text → List SourceFile → Text
digest_of repo branch sha files = lit "digest"

abbrev stored : StorageProfile
stored = record { init_mode = InitMode.db_push; storage_class_name = none }

abbrev world : World
world = record {
  now = 5000;
  deploy_owner = lit "swkoo-apps";
  manifest_repo = lit "swkoo/swkoo-kr";
  manifest_branch = lit "main";
  apps_domain = lit "apps.swkoo.kr";
  probes = λ id owner repo. ok probes;
  state_of = λ login. record { argo_configured = true; registration = err missing; app = ok none };
  apps = apps;
  source_api = λ repo. source_api;
  source_git = λ repo. git;
  digest_of = digest_of;
  deploy_repo = λ login. record {
    read = ok RepoState.archived;
    unarchive = ok tt;
    create = ok tt;
    archive = ok tt;
    delete = ok tt;
  };
  deploy_git = λ login. git;
  control_git = git;
  user_files = λ port image. (lit "Dockerfile", lit "FROM node") ∷ [];
  deploy_files = λ p. (lit "namespace.yaml", p.login) ∷ [];
  registration = λ p. lit "login: ann";
  stored_profile = λ login. some stored;
  left = λ step. Written.repository (lit "ann") ∷ [];
  reserve = λ login db. (reserve_admission login 5000 db, ok tt);
  preview_json = λ v. [];
  register_json = λ p plan user deploy manifest. [];
}

abbrev request : RegisterRequest
request = record {
  full_name = lit "Ann/Shop";
  subdomain = some (lit " My-Shop ");
  setup_digest = some (lit "digest");
  setup_consent = some (lit "source-setup-v1");
}

abbrev platform : Platform
platform = record {
  db = record empty_db { users = record ann { is_allowed = true } ∷ []; next_user_id = 2 };
  domains = record { rows = []; next_id = 1 };
  written = [];
}

abbrev answer_of : Platform × Result RegisterError RegisterResponse → Option Text
answer_of (s, ok response) = some response.subdomain
answer_of (s, err e) = none

tests :
    (answer_of (register_for_user world (lit "Ann") request platform) ≡ some (lit "my-shop"))
    × ((register_for_user world (lit "Ann") (record request { setup_consent = none }) platform).0
        ≡ platform)
    × ((register_for_user world (lit "Ann") request platform).0.written
        ≡ Written.source_files (lit "Ann/Shop") ((lit "Dockerfile", lit "FROM node") ∷ [])
          ∷ Written.deploy_files ((lit "namespace.yaml", lit "ann") ∷ [])
          ∷ Written.registration (lit "deploy/users/ann.yaml") (lit "login: ann")
          ∷ [])
    × (first_match repo_here (lit "deployRepo: o/ann\nimage:\n  repo: ghcr.io/ann/shop\n")
        ≡ some (lit "shop"))
unfolding run
tests = (refl, refl, refl, refl)

detect_stack-is_deployable_example : is_nextjs (detect_stack probes) ≡ is_deployable probes
detect_stack-is_deployable_example = detect_stack-is_deployable probes

abbrev plan : SourceSetupPlan
plan = record {
  repo = lit "Ann/Shop";
  branch = lit "main";
  sha = lit "base";
  digest = lit "digest";
  files =
      record {
        path = lit "Dockerfile";
        action = FileAction.create;
        before = none;
        after = lit "FROM node";
      }
      ∷ [];
}

abbrev desired : List (Text × Text)
desired = (lit "Dockerfile", lit "FROM node") ∷ []

create_missing-creates_example :
    (plan.branch ≡ lit "main")
    × (source_api.head ≡ ok plan.sha)
    × All (λ (f : SourceFile). is_review f ≡ false) plan.files
    × ((tree : SourceTree) × (source_api.tree plan.sha ≡ ok tree)
        × ((lit "made" ≡ plan.sha) ⊎ IsCreation git plan.sha tree.entries desired (lit "made")))
unfolding run
create_missing-creates_example =
    create_missing-creates digest_of apps source_api git (lit "Ann/Shop") desired plan (lit "made")
      refl refl refl

register_for_user-IsAuthorised_example :
    ((register_for_user world (lit "Ann") request platform).0.written ≡ platform.written)
    ⊎ ((a : Authorised) × IsAuthorised world (lit "Ann") request platform a)
register_for_user-IsAuthorised_example =
    register_for_user-IsAuthorised world (lit "Ann") request platform

abbrev removal : Unregister.World
removal = record {
  now = 6000;
  manifest_repo = lit "swkoo/swkoo-kr";
  manifest_branch = lit "main";
  apps = apps;
  control_git = git;
  commit_json = λ commit. commit;
}
