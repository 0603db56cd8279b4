-- ===== src/Deploy/Stages/Build.antt =====
-- `checkManifestStage`, `checkBuildStage`, `classifyBuildFailure` and `maybeNotifyBuildFailure`.
pub mod Once
use swkoo_kr.Prelude.{
  ℕ, Bool, true, false, not, ◌&&◌, ◌||◌, Option, none, some, List, [], ◌∷◌, ◌++◌, if◌then◌else◌,
  ◌==◌, nat_eq, or_else, is_some, any, find, Result, ok, err, map,
}
use swkoo_kr.Prelude.Texts.{Text, lit, text_eq, to_lower, includes}
use swkoo_kr.Prelude.Maps.{lookup, insert}
use swkoo_kr.Deploy.Image.{is_text}
use swkoo_kr.Deploy.Stages.{StageInfo, StageStatus, StageReason, stage}

-- A request to GitHub that failed, with the status of the answer if there was one.
pub record HttpError : Type 0 where
  pub status : Option ℕ

-- `checkManifestStage`; both failures are told as `pending`, with different texts.
unfoldable pub check_manifest_stage : Result HttpError (Unit {0}) → StageInfo
check_manifest_stage (ok done) = stage StageStatus.success
check_manifest_stage (err thrown) = stage StageStatus.pending

pub record GhaRunSummary : Type 0 where
  pub id : ℕ
  pub status : Text
  pub conclusion : Option Text
  pub head_sha : Text
  pub event : Option Text

pub record GhaJobStep : Type 0 where
  pub name : Text
  pub conclusion : Option Text

-- What the probes of `classifyBuildFailure` read: whether the workflow has the legacy tag, and the
-- steps of the jobs of the run.
pub record FailureProbes : Type 0 where
  pub has_legacy_tag : Option Bool
  pub steps : Option (List GhaJobStep)

abbrev failed_step : List GhaJobStep → Text
failed_step steps = elim (find (λ (s : GhaJobStep). is_text (lit "failure") s.conclusion) steps) [
  | none ↦ []
  | some s ↦ to_lower s.name
]

unfoldable pub step_reason : Text → StageReason
step_reason name =
    if includes name (lit "login") && includes name (lit "ghcr")
    then StageReason.ghcr_push_failed
    else if includes name (lit "build")
        && (includes name (lit "push") || includes name (lit "docker"))
    then StageReason.docker_build_failed
    else StageReason.unknown_build_failure

-- `classifyBuildFailure`
unfoldable pub classify_build_failure : FailureProbes → StageReason
classify_build_failure probes =
    if or_else probes.has_legacy_tag false
    then StageReason.workflow_old_template
    else elim probes.steps [
      | none ↦ StageReason.unknown_build_failure
      | some steps ↦ step_reason (failed_step steps)
    ]

abbrev is_build_event : Option Text → Bool
is_build_event none = true
is_build_event (some event) = event == [] || event == lit "push" || event == lit "workflow_dispatch"

abbrev pub is_build_of : Text → GhaRunSummary → Bool
is_build_of head run = run.head_sha == head && is_build_event run.event

-- `notifiedFailures`, by `owner/repo`, and the owner and the repository of the messages sent.
abbrev pub NotifiedFailures : Type 0
NotifiedFailures = List (Text × ℕ)

abbrev pub failure_key : Text → Text → Text
failure_key owner repo = to_lower owner ++ lit "/" ++ repo

-- `maybeNotifyBuildFailure`: the new map, and whether a message is sent.
unfoldable pub maybe_notify_build_failure :
    Bool → Text → Text → GhaRunSummary → NotifiedFailures → NotifiedFailures × Bool
maybe_notify_build_failure configured owner repo run notified =
    if not configured || is_text (lit "success") run.conclusion
    then (notified, false)
    else elim (lookup (failure_key owner repo) notified) [
      | none ↦ (insert (failure_key owner repo) run.id notified, true)
      | some id ↦
          if id == run.id
          then (notified, false)
          else (insert (failure_key owner repo) run.id notified, true)
    ]

-- What GitHub answers: the head of the default branch and the runs of the workflow.
pub record BuildAnswers : Type 0 where
  pub head : Text
  pub runs : List GhaRunSummary
  pub probes : FailureProbes

abbrev pub build_failed : StageReason → StageInfo
build_failed reason = record (stage StageStatus.failed) { reason = some reason }

abbrev pub build_done : Text → StageInfo
build_done sha = record (stage StageStatus.success) { source_sha = some sha }

abbrev completed : GhaRunSummary → Bool
completed run = run.status == lit "completed"

unfoldable pub run_stage :
    Bool
    → Text
    → Text
    → FailureProbes
    → GhaRunSummary
    → NotifiedFailures
    → (NotifiedFailures × Bool) × StageInfo
unfolding maybe_notify_build_failure
run_stage configured owner repo probes run notified =
    if completed run && is_text (lit "success") run.conclusion
    then ((notified, false), build_done run.head_sha)
    else if completed run
    then (
      maybe_notify_build_failure configured owner repo run notified,
      build_failed (classify_build_failure probes),
    )
    else ((notified, false), stage StageStatus.running)

unfoldable pub found_run_stage :
    Bool
    → Text
    → Text
    → FailureProbes
    → Option GhaRunSummary
    → NotifiedFailures
    → (NotifiedFailures × Bool) × StageInfo
found_run_stage configured owner repo probes none notified =
    ((notified, false), stage StageStatus.pending)
found_run_stage configured owner repo probes (some run) notified =
    run_stage configured owner repo probes run notified

-- `checkBuildStage`; `none` where no token is valid or a request fails.
unfoldable pub check_build_stage :
    Bool
    → Text
    → Text
    → Option BuildAnswers
    → NotifiedFailures
    → (NotifiedFailures × Bool) × StageInfo
check_build_stage configured owner repo none notified =
    ((notified, false), stage StageStatus.pending)
check_build_stage configured owner repo (some answers) notified =
    found_run_stage configured owner repo answers.probes
      (find (is_build_of answers.head) answers.runs) notified
