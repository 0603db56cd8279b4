-- ===== src/Deploy/Preview.antt =====
-- `detectStack` of deploy/deploy.service.ts. The texts that are only shown (label, message,
-- userAction) are left out; the reason of a refusal is the key of the check whose message it is.
pub mod Deployable
use swkoo_kr.Prelude.{
  ℕ, Bool, true, false, not, ◌&&◌, ◌||◌, Option, none, some, List, [], ◌∷◌, ◌++◌, if◌then◌else◌,
  ◌==◌, coalesce, any, find, Result, ok, err,
}
use swkoo_kr.Prelude.Texts.{Text, lit, text_eq}
use swkoo_kr.Prelude.Maps.{lookup}
use swkoo_kr.Domain.Repository.{is_truthy}
use swkoo_kr.Github.Commit.{HttpFailure, is_status}
use swkoo_kr.Deploy.Storage.{
  StorageProfile, StorageClass, InitMode, datasource_block, sqlite_here, env_url_here, somewhere,
}

pub data CheckKey : Type 0 where
  repo_access default_branch package_json next_dep build_script package_lockfile repo_casing
        prisma_sqlite :
      CheckKey

pub data CheckStatus : Type 0 where
  pass warn fail : CheckStatus

pub record PreviewCheck : Type 0 where
  pub key : CheckKey
  pub status : CheckStatus

pub record Package : Type 0 where
  pub name : Option Text
  pub dependencies : List (Text × Text)
  pub dev_dependencies : List (Text × Text)
  pub scripts : List (Text × Text)
  pub node_engine : Option Text

pub data StackPreview : Type 0 where
  nextjs : Option Text → ℕ → Option Text → List PreviewCheck → Option StorageProfile → StackPreview
  unsupported : CheckKey → List PreviewCheck → StackPreview

-- What GitHub answers. The content of package.json is what `JSON.parse` gives: `none` for a value
-- that is falsy (`null`, `false`, `0`, `""`), and a failure where it throws.
pub record Probes : Type 0 where
  pub branch : Result HttpFailure Text
  pub pkg : Result HttpFailure (Option Package)
  pub lockfile : Result HttpFailure (Unit {0})
  pub schema : Result HttpFailure Text
  pub migrations : Result HttpFailure (List Bool)  -- which entries are directories

abbrev pub check : CheckKey → CheckStatus → PreviewCheck
check key status = record { key = key; status = status }

abbrev pub or_fail : Bool → CheckStatus
or_fail passed = if passed then CheckStatus.pass else CheckStatus.fail

abbrev pub or_warn : Bool → CheckStatus
or_warn passed = if passed then CheckStatus.pass else CheckStatus.warn

-- `pkg.dependencies?.[name] ?? pkg.devDependencies?.[name]`
abbrev pub dependency : Text → Package → Option Text
dependency name p = coalesce (lookup name p.dependencies) (lookup name p.dev_dependencies)

abbrev pub has_next : Package → Bool
has_next p = is_truthy (dependency (lit "next") p)

abbrev pub has_build : Package → Bool
has_build p = is_truthy (lookup (lit "build") p.scripts)

abbrev package_checks : Option Package → List PreviewCheck
package_checks none = []
package_checks (some p) =
    check CheckKey.next_dep (or_fail (has_next p))
    ∷ check CheckKey.build_script (or_warn (has_build p))
    ∷ []

unfoldable pub read_package : Result HttpFailure (Option Package) → List PreviewCheck
read_package (ok p) = check CheckKey.package_json CheckStatus.pass ∷ package_checks p
read_package (err e) = check CheckKey.package_json CheckStatus.fail ∷ []

unfoldable pub lockfile_checks : Result HttpFailure (Unit {0}) → List PreviewCheck
lockfile_checks (ok found) = check CheckKey.package_lockfile CheckStatus.pass ∷ []
lockfile_checks (err e) =
    if is_status 404 e then check CheckKey.package_lockfile CheckStatus.warn ∷ [] else []

abbrev pub package_of : Result HttpFailure (Option Package) → Option Package
package_of (ok p) = p
package_of (err e) = none

-- `prisma` in both lists of dependencies, then `@prisma/client`
abbrev pub has_prisma : Option Package → Bool
has_prisma none = false
has_prisma (some p) =
    is_truthy (coalesce (dependency (lit "prisma") p) (dependency (lit "@prisma/client") p))

abbrev init_mode_of : Result HttpFailure (List Bool) → InitMode
init_mode_of (ok entries) =
    if any (λ is_dir. is_dir) entries then InitMode.migrate_deploy else InitMode.db_push
init_mode_of (err e) = InitMode.db_push

abbrev new_profile : InitMode → StorageProfile
new_profile mode = record { init_mode = mode; storage_class_name = some StorageClass.user_quota }

abbrev pub prisma_check : CheckStatus → List PreviewCheck
prisma_check status = check CheckKey.prisma_sqlite status ∷ []

abbrev pub is_sqlite : Text → Bool
is_sqlite schema = somewhere sqlite_here (datasource_block schema)

abbrev pub has_env_url : Text → Bool
has_env_url schema = somewhere env_url_here (datasource_block schema)

unfoldable pub schema_storage :
    Option Package
    → Result HttpFailure (List Bool)
    → Text
    → List PreviewCheck × Option StorageProfile
schema_storage pkg migrations schema =
    if not (is_sqlite schema)
    then (prisma_check CheckStatus.warn, none)
    else if not (has_env_url schema)
    then (prisma_check CheckStatus.fail, none)
    else if not (has_prisma pkg)
    then (prisma_check CheckStatus.warn, none)
    else (prisma_check CheckStatus.pass, some (new_profile (init_mode_of migrations)))

-- An empty schema is skipped as one that is not there.
unfoldable pub schema_checks :
    Option Package
    → Result HttpFailure (List Bool)
    → Result HttpFailure Text
    → List PreviewCheck × Option StorageProfile
unfolding schema_storage
schema_checks pkg migrations (err e) = ([], none)
schema_checks pkg migrations (ok []) = ([], none)
schema_checks pkg migrations (ok (c ∷ s)) = schema_storage pkg migrations (c ∷ s)

abbrev pub read_schema : Probes → List PreviewCheck × Option StorageProfile
read_schema p = schema_checks (package_of p.pkg) p.migrations p.schema

abbrev pub is_fail : PreviewCheck → Bool
is_fail c = elim c.status [ CheckStatus.fail ↦ true | _ ↦ false ]

abbrev name_of : Option Package → Option Text
name_of none = none
name_of (some p) = p.name

abbrev engine_of : Option Package → Option Text
engine_of none = none
engine_of (some p) = p.node_engine

abbrev pub classified :
    Option Package → List PreviewCheck → Option StorageProfile → Option PreviewCheck → StackPreview
classified pkg checks profile (some c) = StackPreview.unsupported c.key checks
classified pkg checks profile none =
    StackPreview.nextjs (name_of pkg) 3000 (engine_of pkg) checks profile

abbrev pub classify : Option Package → List PreviewCheck → Option StorageProfile → StackPreview
classify pkg checks profile = classified pkg checks profile (find is_fail checks)

abbrev pub all_checks : Probes → Text → List PreviewCheck → List PreviewCheck
all_checks p branch storage =
    (check CheckKey.repo_access CheckStatus.pass
      ∷ check CheckKey.default_branch (or_fail (branch == lit "main"))
      ∷ [])
    ++ (read_package p.pkg
        ++ (lockfile_checks p.lockfile ++ (check CheckKey.repo_casing CheckStatus.pass ∷ storage)))

abbrev pub preview_of : Probes → Result HttpFailure Text → StackPreview
preview_of p (err e) =
    StackPreview.unsupported CheckKey.repo_access (check CheckKey.repo_access CheckStatus.fail ∷ [])
preview_of p (ok branch) =
    classify (package_of p.pkg) (all_checks p branch (read_schema p).0) (read_schema p).1

-- `detectStack`
unfoldable pub detect_stack : Probes → StackPreview
detect_stack p = preview_of p p.branch
