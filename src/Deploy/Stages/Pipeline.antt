-- ===== src/Deploy/Stages/Pipeline.antt =====
-- `checkDeployStage`, `checkLiveStage` and `getStages`.
pub mod Order
use swkoo_kr.Prelude.{
  ℕ, Bool, true, false, not, ◌&&◌, ◌||◌, Option, none, some, List, [], ◌∷◌, ◌++◌, if◌then◌else◌,
  ◌==◌, nat_eq, or_else, is_some, any, find, Result, leb, ltb,
}
use swkoo_kr.Prelude.Texts.{Text, lit, text_eq, to_lower, ends_with}
use swkoo_kr.Deploy.Names.{sanitize_name}
use swkoo_kr.Deploy.Image.{Application, is_text, is_digest, image_repo, of_repo, ready_image_digest}
use swkoo_kr.Deploy.Stages.{StageInfo, StageStatus, StageReason, stage, is_success, is_failed}
use swkoo_kr.Deploy.Stages.Build.{
  HttpError, BuildAnswers, NotifiedFailures, check_manifest_stage, check_build_stage,
}
use swkoo_kr.Deploy.Stages.Runtime.{KubeAnswer, check_runtime}

abbrev is_done : Application → Bool
is_done app = is_text (lit "Synced") app.sync && is_text (lit "Healthy") app.health

abbrev is_degraded : Application → Bool
is_degraded app =
    is_text (lit "Degraded") app.health
    || is_text (lit "Failed") app.phase
    || is_text (lit "Error") app.phase

-- `checkDeployStage`
unfoldable pub check_deploy_stage : Option Application → StageInfo
check_deploy_stage none = stage StageStatus.pending
check_deploy_stage (some app) =
    if is_done app
    then stage StageStatus.success
    else if is_degraded app
    then record (stage StageStatus.failed) { reason = some StageReason.argo_sync_failed }
    else stage StageStatus.running

-- `checkLiveStage`, of the status that the site answers with, if it answers.
unfoldable pub check_live_stage : Option ℕ → StageInfo
check_live_stage none = stage StageStatus.pending
check_live_stage (some status) =
    if leb 200 status && ltb status 400
    then stage StageStatus.success
    else stage StageStatus.pending

pub record PackageVersion : Type 0 where
  pub name : Text
  pub tags : List Text

-- What the services answer while `getStages` runs.
pub record Answers : Type 0 where
  pub registration : Result HttpError (Unit {0})
  pub build : Option BuildAnswers
  pub app : Option Application
  pub versions : Option (List PackageVersion)
  pub kube : KubeAnswer
  pub live : Option ℕ

pub record Stages : Type 0 where
  pub manifests : StageInfo
  pub build : StageInfo
  pub image_detected : StageInfo
  pub deploy : StageInfo
  pub live : StageInfo

abbrev pub tagged : Text → Option (List PackageVersion) → Option Text
tagged sha none = none
tagged sha (some versions) =
    elim (find (λ (v : PackageVersion). any (λ t. t == sha) v.tags) versions) [
      | none ↦ none
      | some v ↦ some v.name
    ]

abbrev desired_image : Text → Text → Option Application → Option Text
desired_image login repo none = none
desired_image login repo (some app) = find (of_repo (image_repo login repo)) app.images

abbrev pinned_to : Text → Option Text → Bool
pinned_to digest none = false
pinned_to digest (some image) = ends_with image (lit "@" ++ digest)

-- The digest of the package version that has the tag, where the application is pinned to it.
unfoldable pub detected : Text → Text → Text → Answers → Option Text
detected login repo sha a = elim (tagged sha a.versions) [
  | none ↦ none
  | some expected ↦
      if is_digest expected && pinned_to expected (desired_image login repo a.app)
      then some expected
      else none
]

abbrev pub not_detected : StageInfo
not_detected = record (stage StageStatus.pending) {
  reason = some StageReason.image_updater_pending;
}

abbrev pub image_found : Text → StageInfo
image_found digest = record (stage StageStatus.success) { image_digest = some digest }

abbrev pub live_of : StageInfo → StageInfo
live_of s =
    if is_success s
    then s
    else record s { status = StageStatus.failed; reason = some StageReason.live_healthcheck_failed }

abbrev waits_for_capacity : StageInfo → Bool
waits_for_capacity s = elim s.reason [
  | some StageReason.cluster_capacity_pending ↦ true
  | _ ↦ false
]

abbrev is_ready_at : Text → Option Text → Bool
is_ready_at digest none = false
is_ready_at digest (some ready) = ready == digest

-- The stages `deploy` and `live`, from what `checkRuntime` returns.
unfoldable pub deploy_and_live : Text → Text → Text → Answers → StageInfo → StageInfo × StageInfo
deploy_and_live login repo digest a runtime =
    let waiting = stage StageStatus.pending in
    if is_failed runtime || waits_for_capacity runtime
    then (runtime, waiting)
    else if is_failed (check_deploy_stage a.app)
    then (check_deploy_stage a.app, waiting)
    else if not (is_ready_at digest (ready_image_digest a.app login repo))
    then (stage StageStatus.running, waiting)
    else if is_success runtime
    then (runtime, live_of (check_live_stage a.live))
    else (runtime, waiting)

abbrev pub waiting_after : StageInfo → StageInfo → Stages
waiting_after manifests build = record {
  manifests = manifests;
  build = build;
  image_detected = stage StageStatus.pending;
  deploy = stage StageStatus.pending;
  live = stage StageStatus.pending;
}

abbrev pub after_build : Text → Text → Answers → Option Text → Stages → Stages
after_build login repo a none stages = record stages { image_detected = not_detected }
after_build login repo a (some digest) stages =
    let (deploy, live) =
      deploy_and_live login repo digest a
        (check_runtime login repo (sanitize_name repo) digest a.kube) in
    record stages { image_detected = image_found digest; deploy = deploy; live = live }

abbrev pub stages_of : Text → Text → Answers → StageInfo → StageInfo → Option Text → Stages
stages_of login repo a manifests build none = waiting_after manifests build
stages_of login repo a manifests build (some sha) =
    if sha == [] || not (is_success manifests) || not (is_success build)
    then waiting_after manifests build
    else after_build login repo a (detected login repo sha a) (waiting_after manifests build)

-- `getStages`: the map of the notified failures, whether a message is sent, and the stages.
unfoldable pub get_stages :
    Bool → Text → Text → Answers → NotifiedFailures → (NotifiedFailures × Bool) × Stages
get_stages configured login repo a notified =
    let (told, build) = check_build_stage configured login repo a.build notified in
    (told, stages_of login repo a (check_manifest_stage a.registration) build build.source_sha)
