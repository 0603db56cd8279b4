-- ===== src/Deploy/Stages/Runtime/Ready.antt =====
-- What a successful `checkRuntime` says of the pods.
use swkoo_kr.Prelude.{
  ◌≡◌, ◌≤◌, inl, inr, true, false, none, some, List, [], ◌∷◌, Option-cases, any, all, All, length,
  arith,
}
use swkoo_kr.Prelude.Texts.{Text}
use swkoo_kr.Deploy.Stages.{StageInfo, is_success}
use swkoo_kr.Deploy.Stages.Runtime.{
  Deployment, Pod, KubeAnswer, pod_problem, first_problem, current_pods, runtime_of, replica_count,
  is_oom, is_broken, all_statuses, is_rolled_out, is_ready, check_runtime,
}

pod_problem-fails : (pod : Pod) (s : StageInfo) → pod_problem pod ≡ some s → is_success s ≡ false
unfolding pod_problem
pod_problem-fails pod s e = ground arith

first_problem-fails :
    (pods : List Pod) (s : StageInfo) → first_problem pods ≡ some s → is_success s ≡ false
unfolding first_problem
first_problem-fails [] s e = absurd (cc)
first_problem-fails (pod ∷ pods) s e =
    ground (arith, pod_problem-fails pod s, first_problem-fails pods s)

-- No container is told to be killed for its memory, and none to be broken.
abbrev pub IsHealthy : Pod → Type 0
IsHealthy pod = (any is_oom (all_statuses pod) ≡ false) × (any is_broken (all_statuses pod) ≡ false)

first_problem-none : (pods : List Pod) → first_problem pods ≡ none → All IsHealthy pods
unfolding first_problem pod_problem
first_problem-none [] e = tt
first_problem-none (pod ∷ pods) e = (ground arith, first_problem-none pods (ground arith))

settled :
    (login repo app_name digest : Text) (d : Deployment) (current : List Pod)
    → is_success (runtime_of login repo digest app_name d current none) ≡ true
    → (is_rolled_out login repo digest app_name d current ≡ true)
      × (all (is_ready app_name) current ≡ true)
unfolding runtime_of
settled login repo app_name digest d current h = ground arith

-- Where `checkRuntime` succeeds, the pods that run the image are as many as the replicas asked for,
-- at least one, all of them ready, and none of them has a problem that it looks for.
pub check_runtime-ready :
    (login repo app_name digest : Text) (d : Deployment) (pods : List Pod)
    → is_success (check_runtime login repo app_name digest (KubeAnswer.answered d pods)) ≡ true
    → (1 ≤ replica_count d)
      × (length (current_pods login repo digest app_name pods) ≡ replica_count d)
      × (all (is_ready app_name) (current_pods login repo digest app_name pods) ≡ true)
      × All IsHealthy (current_pods login repo digest app_name pods)
unfolding check_runtime runtime_of
check_runtime-ready login repo app_name digest d pods h =
    let current = current_pods login repo digest app_name pods in
    elim (Option-cases (first_problem current)) [
      | inr (s, e) ↦
          absurd
            (let up : is_success s ≡ true = rw e at h in cc (first_problem-fails current s e, up))
      | inl n ↦
          let (done, ready) = settled login repo app_name digest d current (rw n at h) in
          (ground (arith, done), ground (arith, done), ready, first_problem-none current n)
    ]
