-- ===== src/Deploy/Stages/Runtime/Recovered.antt =====
-- A container that is ready again is not judged by how it ended before.
use swkoo_kr.Prelude.{
  ◌≡◌, refl, ap, ap₂, ◌∙◌, Bool, ◌&&◌, ◌||◌, Option, none, some, List, [], ◌∷◌, ◌++◌, map, inl, inr,
  Bool-cases, if◌then◌else◌, any, all, keep, length, arith,
}
use swkoo_kr.Prelude.Texts.{Text}
use swkoo_kr.Deploy.Stages.{StageInfo}
use swkoo_kr.Deploy.Stages.Runtime.{
  ContainerStatus, Deployment, Pod, KubeAnswer, pod_problem, first_problem, current_pods,
  runtime_of, is_oom, is_broken, is_up, is_current, all_statuses, is_ready, check_runtime,
}

-- The last state of a ready container is dropped.
abbrev pub forget : ContainerStatus → ContainerStatus
forget c = if c.ready then record c { last_terminated = none } else c

abbrev pub forget_pod : Pod → Pod
forget_pod pod = record pod {
  init_statuses = map forget pod.init_statuses;
  statuses = map forget pod.statuses;
}

module _ {A : Type 0} (f : A → A) (q : A → Bool) (same : (x : A) → q (f x) ≡ q x) where
  any-map : (xs : List A) → any q (map f xs) ≡ any q xs
  any-map [] = refl
  any-map (x ∷ xs) = ap₂ (λ a b. a || b) (same x) (any-map xs)

  all-map : (xs : List A) → all q (map f xs) ≡ all q xs
  all-map [] = refl
  all-map (x ∷ xs) = ap₂ (λ a b. a && b) (same x) (all-map xs)

  keep-map : (xs : List A) → keep q (map f xs) ≡ map f (keep q xs)
  keep-map [] = refl
  keep-map (x ∷ xs) = elim (Bool-cases (q x)) [
    | inl e ↦ rw (same x, e) (ap (λ ys. f x ∷ ys) (keep-map xs))
    | inr e ↦ rw (same x, e) (keep-map xs)
  ]

map-append : {A : Type 0} (f : A → A) (xs ys : List A) → map f xs ++ map f ys ≡ map f (xs ++ ys)
map-append f [] ys = refl
map-append f (x ∷ xs) ys = ap (λ zs. f x ∷ zs) (map-append f xs ys)

length-map : {A : Type 0} (f : A → A) (xs : List A) → length (map f xs) ≡ length xs
length-map f [] = refl
length-map f (x ∷ xs) = omega (arith, length-map f xs)

is_oom-forget : (c : ContainerStatus) → is_oom (forget c) ≡ is_oom c
is_oom-forget c = elim (Bool-cases c.ready) [ inl e ↦ rw e (ground arith) | inr e ↦ rw e refl ]

is_broken-forget : (c : ContainerStatus) → is_broken (forget c) ≡ is_broken c
is_broken-forget c = elim (Bool-cases c.ready) [ inl e ↦ rw e refl | inr e ↦ rw e refl ]

is_up-forget :
    (app_name : Text) (c : ContainerStatus) → is_up app_name (forget c) ≡ is_up app_name c
is_up-forget app_name c = elim (Bool-cases c.ready) [ inl e ↦ rw e refl | inr e ↦ rw e refl ]

any-statuses :
    (q : ContainerStatus → Bool) (pod : Pod)
    → ((c : ContainerStatus) → q (forget c) ≡ q c)
    → any q (all_statuses (forget_pod pod)) ≡ any q (all_statuses pod)
any-statuses q pod same =
    ap (any q) (map-append forget pod.init_statuses pod.statuses)
    ∙ any-map forget q same (all_statuses pod)

pod_problem-forget_pod : (pod : Pod) → pod_problem (forget_pod pod) ≡ pod_problem pod
unfolding pod_problem
pod_problem-forget_pod pod =
    rw (any-statuses is_oom pod is_oom-forget, any-statuses is_broken pod is_broken-forget) refl

first_problem-forget_pod :
    (pods : List Pod) → first_problem (map forget_pod pods) ≡ first_problem pods
unfolding first_problem
first_problem-forget_pod [] = refl
first_problem-forget_pod (pod ∷ pods) =
    ap₂ (λ (o rest : Option StageInfo). elim o [ none ↦ rest | some problem ↦ some problem ])
      (pod_problem-forget_pod pod) (first_problem-forget_pod pods)

runtime_of-forget_pod :
    (login repo digest app_name : Text) (d : Deployment) (current : List Pod)
    (problem : Option StageInfo)
    → runtime_of login repo digest app_name d (map forget_pod current) problem
      ≡ runtime_of login repo digest app_name d current problem
unfolding runtime_of
runtime_of-forget_pod login repo digest app_name d current (some problem) = refl
runtime_of-forget_pod login repo digest app_name d current none =
    let ready =
      all-map forget_pod (is_ready app_name)
        (λ pod. rw (any-map forget (is_up app_name) (is_up-forget app_name) pod.statuses) refl)
        current in
    rw (length-map forget_pod current, ready) refl

-- Whatever the containers that are ready now ended with before (such as being killed for their
-- memory), `checkRuntime` answers as if it were not known.
pub check_runtime-forget :
    (login repo app_name digest : Text) (d : Deployment) (pods : List Pod)
    → check_runtime login repo app_name digest (KubeAnswer.answered d (map forget_pod pods))
      ≡ check_runtime login repo app_name digest (KubeAnswer.answered d pods)
unfolding check_runtime
check_runtime-forget login repo app_name digest d pods =
    let current = current_pods login repo digest app_name pods in
    let kept = keep-map forget_pod (is_current login repo digest app_name) (λ pod. refl) pods in
    rw (kept, first_problem-forget_pod current)
      (runtime_of-forget_pod login repo digest app_name d current (first_problem current))
