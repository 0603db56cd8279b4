-- ===== src/Deploy/Tests.antt =====
-- The stages of a deployment at concrete answers.
pub mod Requests
pub mod Mails
use swkoo_kr.Prelude.{
  map, if◌then◌else◌, ◌≡◌, ◌≤◌, refl, ◌⊎◌, Bool, true, false, ◌&&◌, Option, none, some, List, [],
  ◌∷◌, ◌++◌, Result, ok, err, any, all, All, length, find,
}
use swkoo_kr.Prelude.Texts.{
  Text, lit, text_eq, text_beq, to_lower, lower_unit, starts_with, ends_with, includes, split, join,
}
use swkoo_kr.Prelude.Maps.{lookup, insert}
use swkoo_kr.Deploy.Names.{
  sanitize_name, sanitize_name_to, replace_runs, drop_dashes, drop_end_dashes,
}
use swkoo_kr.Deploy.Image.{
  Application, RunningPod, PodImage, is_digest, pinned_digest, image_repo, matches, is_settled,
  ready_image_digest, trailing_digest, drop_tag, repository_of, pod_image, collect_images,
  running_image,
}
use swkoo_kr.Deploy.Image.Agreed.{ready_image_digest-agrees, running_image-only}
use swkoo_kr.Deploy.Stages.{StageReason, is_success}
use swkoo_kr.Deploy.Stages.Build.{
  BuildAnswers, FailureProbes, GhaRunSummary, check_manifest_stage, step_reason,
  classify_build_failure, maybe_notify_build_failure, run_stage, found_run_stage, check_build_stage,
  is_build_of,
}
use swkoo_kr.Deploy.Stages.Build.Once.{is_due, messages, messages-once}
use swkoo_kr.Deploy.Stages.Runtime.{
  Terminated, Container, ContainerStatus, Pod, Deployment, KubeAnswer, is_pinned, pod_problem,
  first_problem, runtime_of, check_runtime, replica_count, current_pods, is_ready,
}
use swkoo_kr.Deploy.Stages.Runtime.Recovered.{forget_pod, check_runtime-forget}
use swkoo_kr.Deploy.Stages.Pipeline.{
  Answers, check_deploy_stage, check_live_stage, detected, deploy_and_live, get_stages,
}
use swkoo_kr.Deploy.Stages.Pipeline.Order.{in_order, IsNewest, get_stages-in_order}

unfoldable pub run : Unit {0}
unfolding lit text_beq to_lower lower_unit starts_with ends_with includes split join lookup insert
    sanitize_name_to replace_runs drop_dashes drop_end_dashes is_digest pinned_digest image_repo
    matches ready_image_digest trailing_digest drop_tag repository_of pod_image collect_images
    running_image check_manifest_stage step_reason classify_build_failure maybe_notify_build_failure
    run_stage found_run_stage check_build_stage messages is_pinned pod_problem first_problem
    runtime_of check_runtime check_deploy_stage check_live_stage detected deploy_and_live get_stages
    in_order
run = tt

abbrev pub hash : Text
hash = lit "sha256:aaaaaaaaaaaaaaaaaaaaaaaaaaaaaaaaaaaaaaaaaaaaaaaaaaaaaaaaaaaaaaaa"

abbrev pub image : Text
image = lit "ghcr.io/ann/shop:latest@" ++ hash

abbrev pub settled_app : Application
settled_app = record {
  sync = some (lit "Synced");
  health = some (lit "Healthy");
  phase = some (lit "Succeeded");
  images = image ∷ [];
  compared = image ∷ [];
  running = image ∷ [];
}

abbrev container : Container
container = record { name = lit "shop"; image = image }

abbrev status : ContainerStatus
status = record {
  name = lit "shop";
  ready = true;
  running = true;
  waiting = none;
  terminated = none;
  last_terminated = none;
  image_id = image;
}

abbrev pod : Pod
pod = record {
  deleting = false;
  containers = container ∷ [];
  init_statuses = [];
  statuses = status ∷ [];
  conditions =
      record { kind = lit "Ready"; status = lit "True"; reason = none; message = none } ∷ [];
}

-- The container was killed for its memory, and is up again.
abbrev killed_before : Terminated
killed_before = record { reason = some (lit "OOMKilled"); exit_code = 137 }

abbrev recovered : Pod
recovered = record pod { statuses = record status { last_terminated = some killed_before } ∷ [] }

abbrev rolled_out : Deployment
rolled_out = record {
  replicas = none;
  observed_generation = some 2;
  generation = some 2;
  containers = container ∷ [];
  updated_replicas = some 1;
  available_replicas = some 1;
  unavailable_replicas = none;
}

abbrev gha_run : Text → GhaRunSummary
gha_run conclusion = record {
  id = 7;
  status = lit "completed";
  conclusion = some conclusion;
  head_sha = lit "c0ffee";
  event = some (lit "push");
}

abbrev build : Text → BuildAnswers
build conclusion = record {
  head = lit "c0ffee";
  runs = gha_run conclusion ∷ [];
  probes = record {
    has_legacy_tag = some false;
    steps = some (record { name = lit "Login to GHCR"; conclusion = some (lit "failure") } ∷ []);
  };
}

abbrev pub answers : Answers
answers = record {
  registration = ok tt;
  build = some (build (lit "success"));
  app = some settled_app;
  versions = some (record { name = hash; tags = lit "c0ffee" ∷ [] } ∷ []);
  kube = KubeAnswer.answered rolled_out (pod ∷ []);
  live = some 200;
}

tests :
    (sanitize_name (lit "My.Shop_") ≡ lit "my-shop")
    × (sanitize_name_to 3 (lit "ab-c") ≡ lit "ab-")
    × (classify_build_failure (build (lit "failure")).probes ≡ StageReason.ghcr_push_failed)
    × (running_image [] (lit "shop") ≡ none)
    × (is_success (
          check_runtime
            (lit "ann")
            (lit "shop")
            (lit "shop")
            hash
            (KubeAnswer.answered rolled_out (recovered ∷ [])))
        ≡ true)
unfolding run
tests = (refl, refl, refl, refl, refl)

check_runtime-forget_example :
    check_runtime
      (lit "ann")
      (lit "shop")
      (lit "shop")
      hash
      (KubeAnswer.answered rolled_out (map forget_pod (recovered ∷ [])))
    ≡ check_runtime
        (lit "ann")
        (lit "shop")
        (lit "shop")
        hash
        (KubeAnswer.answered rolled_out (recovered ∷ []))
check_runtime-forget_example =
    check_runtime-forget (lit "ann") (lit "shop") (lit "shop") hash rolled_out (recovered ∷ [])

get_stages-in_order_example :
    in_order (get_stages true (lit "ann") (lit "shop") answers []).1 ≡ true
get_stages-in_order_example = get_stages-in_order true (lit "ann") (lit "shop") answers []

abbrev Newest : Type 0
Newest =
    (sha digest : Text) × ((get_stages true (lit "ann") (lit "shop") answers []).1.build.source_sha
      ≡ some sha)
    × ((get_stages true (lit "ann") (lit "shop") answers []).1.image_detected.image_digest
        ≡ some digest)
    × IsNewest (lit "ann") (lit "shop") sha digest answers

messages-once_example :
    messages true (lit "Ann") (lit "shop") (build (lit "failure") ∷ build (lit "failure") ∷ []) []
    ≡ (if is_due true (lit "Ann") (lit "shop") (gha_run (lit "failure")) [] then 1 else 0)
unfolding run
messages-once_example =
    messages-once true (lit "Ann") (lit "shop") (gha_run (lit "failure")) (build (lit "failure"))
      (build (lit "failure") ∷ []) [] (refl, (refl, tt))
