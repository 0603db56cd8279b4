-- ===== src/Deploy/Stages.antt =====
-- deploy/deploy-status.service.ts: what the stages of a deployment are told as. The texts that are
-- only shown (message, link, userAction, operatorHint) are left out.
pub mod Build
pub mod Runtime
pub mod Pipeline
use swkoo_kr.Prelude.{Bool, true, false, Option, none}
use swkoo_kr.Prelude.Texts.{Text}

pub data StageStatus : Type 0 where
  pending running success failed : StageStatus

pub data StageReason : Type 0 where
  github_app_not_installed workflow_old_template build_script_missing package_lock_missing
        npm_install_failed docker_build_failed ghcr_push_failed image_updater_pending pod_not_ready
        memory_limit_exceeded cluster_capacity_pending argo_sync_failed live_healthcheck_failed
        unknown_build_failure :
      StageReason

pub record StageInfo : Type 0 where
  pub status : StageStatus
  pub reason : Option StageReason
  pub source_sha : Option Text
  pub image_digest : Option Text

abbrev pub is_success : StageInfo → Bool
is_success s = elim s.status [ StageStatus.success ↦ true | _ ↦ false ]

abbrev pub is_failed : StageInfo → Bool
is_failed s = elim s.status [ StageStatus.failed ↦ true | _ ↦ false ]

abbrev pub stage : StageStatus → StageInfo
stage status = record { status = status; reason = none; source_sha = none; image_digest = none }
