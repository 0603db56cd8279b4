-- ===== src/Deploy/Stages/Pipeline/Order.antt =====
-- No stage succeeds before the stages in front of it, and what a live site must run is the image
-- built of the default branch's head.
use swkoo_kr.Prelude.{
  ◌≡◌, refl, inl, inr, Bool, true, not, ◌&&◌, ◌||◌, Option, none, some, [], ◌==◌, ap, Bool-cases,
  arith,
}
use swkoo_kr.Prelude.Texts.{Text, lit, text_eq, text_beq_iff}
use swkoo_kr.Deploy.Names.{sanitize_name}
use swkoo_kr.Deploy.Image.{is_digest, ready_image_digest}
use swkoo_kr.Deploy.Stages.{StageInfo, is_success}
use mathlib.Core.List.{Mem}
use swkoo_kr.Deploy.Stages.Build.{
  BuildAnswers, GhaRunSummary, NotifiedFailures, check_build_stage, check_manifest_stage,
}
use swkoo_kr.Deploy.Stages.Runtime.{check_runtime}
use swkoo_kr.Deploy.Stages.Pipeline.{
  Answers, Stages, tagged, detected, deploy_and_live, is_ready_at, after_build, waiting_after,
  stages_of, get_stages,
}

-- A stage that succeeds stands behind stages that do.
unfoldable pub in_order : Stages → Bool
in_order s =
    (not (is_success s.live) || is_success s.deploy)
    && (not (is_success s.deploy) || is_success s.image_detected)
    && (not (is_success s.image_detected) || (is_success s.manifests && is_success s.build))

-- A run of the head of the default branch that completed with success.
abbrev pub IsHeadRun : Text → Option BuildAnswers → Type 0
IsHeadRun sha none = ⊥
IsHeadRun sha (some b) =
    (sha ≡ b.head)
    × ((run : GhaRunSummary) × Mem run b.runs
        × (run.head_sha ≡ b.head)
        × (run.status ≡ lit "completed")
        × (run.conclusion ≡ some (lit "success")))

-- What the digest of a live site is of.
pub record IsNewest (login repo sha digest : Text) (a : Answers) : Type 0 where
  pub built : IsHeadRun sha a.build
  pub tag : tagged sha a.versions ≡ some digest
  pub form : is_digest digest ≡ true
  pub synced : ready_image_digest a.app login repo ≡ some digest
  pub up : is_success (check_runtime login repo (sanitize_name repo) digest a.kube) ≡ true

module _ (login repo : Text) (a : Answers) where
  is_ready_at-same :
      (digest : Text) (o : Option Text) → is_ready_at digest o ≡ true → o ≡ some digest
  is_ready_at-same digest none h = absurd (cc)
  is_ready_at-same digest (some ready) h = ap some ((text_beq_iff ready digest).0 h)

  live-deploy :
      (digest : Text) (runtime : StageInfo)
      → let (deploy, live) = deploy_and_live login repo digest a runtime in
        is_success live ≡ true
        → (is_success deploy ≡ true)
          × (ready_image_digest a.app login repo ≡ some digest)
          × (is_success runtime ≡ true)
  unfolding deploy_and_live
  live-deploy digest runtime h =
      ground (arith, is_ready_at-same digest (ready_image_digest a.app login repo))

  after_build-in_order :
      (o : Option Text) (manifests build : StageInfo)
      → is_success manifests ≡ true
      → is_success build ≡ true
      → in_order (after_build login repo a o (waiting_after manifests build)) ≡ true
  unfolding in_order
  after_build-in_order none manifests build m b = refl
  after_build-in_order (some digest) manifests build m b =
      ground
        (arith, live-deploy digest (check_runtime login repo (sanitize_name repo) digest a.kube))

  stages_of-in_order :
      (manifests build : StageInfo) (o : Option Text)
      → in_order (stages_of login repo a manifests build o) ≡ true
  unfolding in_order
  stages_of-in_order manifests build none = refl
  stages_of-in_order manifests build (some sha) =
      elim (Bool-cases (sha == [] || not (is_success manifests) || not (is_success build))) [
        | inl e ↦ rw e refl
        | inr e ↦ rw e (
            after_build-in_order (detected login repo sha a) manifests build (ground arith)
              (ground arith))
      ]

-- Whatever the services answer, no stage is told to have succeeded before those in front of it.
pub get_stages-in_order :
    (configured : Bool) (login repo : Text) (a : Answers) (notified : NotifiedFailures)
    → in_order (get_stages configured login repo a notified).1 ≡ true
unfolding get_stages
get_stages-in_order configured login repo a notified =
    let (told, build) = check_build_stage configured login repo a.build notified in
    stages_of-in_order login repo a (check_manifest_stage a.registration) build build.source_sha
