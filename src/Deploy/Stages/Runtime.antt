-- ===== src/Deploy/Stages/Runtime.antt =====
-- `checkRuntime`: the containers of the newest image.
pub mod Ready
pub mod Recovered
use swkoo_kr.Prelude.{
  ℕ, Bool, true, false, not, ◌&&◌, ◌||◌, Option, none, some, List, [], ◌∷◌, ◌++◌, if◌then◌else◌,
  ◌==◌, nat_eq, or_else, is_some, any, all, find, keep, length, ltb,
}
use swkoo_kr.Prelude.Texts.{Text, lit, text_eq, to_lower, includes, starts_with, ends_with}
use swkoo_kr.Deploy.Image.{is_text}
use swkoo_kr.Deploy.Stages.{StageInfo, StageStatus, StageReason, stage}

pub record Terminated : Type 0 where
  pub reason : Option Text
  pub exit_code : ℕ

-- `waiting` holds the reason of `state.waiting`, if the container waits.
pub record ContainerStatus : Type 0 where
  pub name : Text
  pub ready : Bool
  pub running : Bool
  pub waiting : Option (Option Text)
  pub terminated : Option Terminated
  pub last_terminated : Option Terminated
  pub image_id : Text

pub record Condition : Type 0 where
  pub kind : Text
  pub status : Text
  pub reason : Option Text
  pub message : Option Text

-- An image that is not given is the empty text.
pub record Container : Type 0 where
  pub name : Text
  pub image : Text

pub record Pod : Type 0 where
  pub deleting : Bool
  pub containers : List Container
  pub init_statuses : List ContainerStatus
  pub statuses : List ContainerStatus
  pub conditions : List Condition

pub record Deployment : Type 0 where
  pub replicas : Option ℕ
  pub observed_generation : Option ℕ
  pub generation : Option ℕ
  pub containers : List Container
  pub updated_replicas : Option ℕ
  pub available_replicas : Option ℕ
  pub unavailable_replicas : Option ℕ

pub data KubeAnswer : Type 0 where
  not_configured request_failed : KubeAnswer
  answered : Deployment → List Pod → KubeAnswer

-- The image of the repository that is pinned to the digest.
unfoldable pub is_pinned : Text → Text → Text → Text → Bool
is_pinned login repo digest image =
    starts_with image (lit "ghcr.io/" ++ login ++ lit "/" ++ to_lower repo ++ lit ":")
    && ends_with image (lit "@" ++ digest)

abbrev pub runs_pinned : Text → Text → Text → Text → List Container → Bool
runs_pinned login repo digest app_name containers =
    any (λ (c : Container). c.name == app_name && is_pinned login repo digest c.image) containers

abbrev killed : Option Terminated → Bool
killed none = false
killed (some t) = is_text (lit "OOMKilled") t.reason

abbrev pub is_oom : ContainerStatus → Bool
is_oom c = killed c.terminated || (not c.ready && is_some c.waiting && killed c.last_terminated)

abbrev broken_reasons : List Text
broken_reasons =
    lit "ImagePullBackOff"
    ∷ lit "ErrImagePull"
    ∷ lit "CrashLoopBackOff"
    ∷ lit "CreateContainerConfigError"
    ∷ []

abbrev exit_failed : Option Terminated → Bool
exit_failed none = false
exit_failed (some t) = not (t.exit_code == 0)

abbrev waits_broken : Option (Option Text) → Bool
waits_broken (some (some reason)) = any (λ r. r == reason) broken_reasons
waits_broken _ = false

abbrev pub is_broken : ContainerStatus → Bool
is_broken c = waits_broken c.waiting || exit_failed c.terminated

abbrev lacks_resources : Text → Bool
lacks_resources message =
    includes (to_lower message) (lit "insufficient cpu")
    || includes (to_lower message) (lit "insufficient memory")

abbrev pub is_unschedulable : Condition → Bool
is_unschedulable c =
    c.kind == lit "PodScheduled"
    && c.status == lit "False"
    && is_text (lit "Unschedulable") c.reason
    && lacks_resources (or_else c.message [])

abbrev pub runtime_failed : StageReason → StageInfo
runtime_failed reason = record (stage StageStatus.failed) { reason = some reason }

abbrev pub capacity_pending : StageInfo
capacity_pending = record (stage StageStatus.running) {
  reason = some StageReason.cluster_capacity_pending;
}

abbrev pub all_statuses : Pod → List ContainerStatus
all_statuses pod = pod.init_statuses ++ pod.statuses

-- One round of the loop over the current pods: what it returns early.
unfoldable pub pod_problem : Pod → Option StageInfo
pod_problem pod =
    if any is_oom (all_statuses pod)
    then some (runtime_failed StageReason.memory_limit_exceeded)
    else if any is_broken (all_statuses pod)
    then some (runtime_failed StageReason.pod_not_ready)
    else if any is_unschedulable pod.conditions
    then some capacity_pending
    else none

unfoldable pub first_problem : List Pod → Option StageInfo
first_problem [] = none
first_problem (pod ∷ pods) = elim (pod_problem pod) [
  | none ↦ first_problem pods
  | some problem ↦ some problem
]

abbrev pub is_current : Text → Text → Text → Text → Pod → Bool
is_current login repo digest app_name pod =
    not pod.deleting && runs_pinned login repo digest app_name pod.containers

-- The number of replicas that the deployment asks for.
abbrev pub replica_count : Deployment → ℕ
replica_count d = or_else d.replicas 1

abbrev is_count : ℕ → Option ℕ → Bool
is_count n none = false
is_count n (some m) = m == n

-- The first `return pending`, negated.
abbrev pub is_rolled_out : Text → Text → Text → Text → Deployment → List Pod → Bool
is_rolled_out login repo digest app_name d current =
    not (ltb (replica_count d) 1)
    && not (ltb (or_else d.observed_generation 0) (or_else d.generation 1))
    && runs_pinned login repo digest app_name d.containers
    && is_count (replica_count d) d.updated_replicas
    && is_count (replica_count d) d.available_replicas
    && not (ltb 0 (or_else d.unavailable_replicas 0))
    && length current == replica_count d

abbrev pub is_up : Text → ContainerStatus → Bool
is_up app_name c = c.name == app_name && c.ready && c.running && not (c.image_id == [])

abbrev is_ready_condition : Condition → Bool
is_ready_condition c = c.kind == lit "Ready" && c.status == lit "True"

abbrev pub is_ready : Text → Pod → Bool
is_ready app_name pod = any is_ready_condition pod.conditions && any (is_up app_name) pod.statuses

abbrev pub current_pods : Text → Text → Text → Text → List Pod → List Pod
current_pods login repo digest app_name pods = keep (is_current login repo digest app_name) pods

unfoldable pub runtime_of :
    Text → Text → Text → Text → Deployment → List Pod → Option StageInfo → StageInfo
runtime_of login repo digest app_name d current (some problem) = problem
runtime_of login repo digest app_name d current none =
    if is_rolled_out login repo digest app_name d current && all (is_ready app_name) current
    then stage StageStatus.success
    else stage StageStatus.running

-- `checkRuntime`; the pods are those that the cluster lists for the label `app=<appName>`.
unfoldable pub check_runtime : Text → Text → Text → Text → KubeAnswer → StageInfo
check_runtime login repo app_name digest KubeAnswer.not_configured = stage StageStatus.running
check_runtime login repo app_name digest KubeAnswer.request_failed = stage StageStatus.running
check_runtime login repo app_name digest (KubeAnswer.answered d pods) =
    let current = current_pods login repo digest app_name pods in
    runtime_of login repo digest app_name d current (first_problem current)
