-- ===== src/Deploy/Stages/Build/Once.antt =====
-- How many messages are sent while the same run is found.
use swkoo_kr.Prelude.{
  ℕ, ◌+◌, ◌≡◌, refl, ◌∙◌, ap, inl, inr, Bool, true, false, not, ◌&&◌, Option, none, some, List, [],
  ◌∷◌, if◌then◌else◌, ◌==◌, nat_eq, Bool-cases, find, All, arith,
}
use swkoo_kr.Prelude.Texts.{Text, lit, text_eq, text_beq_refl}
use swkoo_kr.Prelude.Maps.{lookup, insert, lookup-insert}
use swkoo_kr.Deploy.Image.{is_text}
use swkoo_kr.Deploy.Stages.Build.{
  NotifiedFailures, FailureProbes, BuildAnswers, GhaRunSummary, is_build_of, failure_key,
  maybe_notify_build_failure, found_run_stage, run_stage, check_build_stage,
}

abbrev one_if : Bool → ℕ
one_if sent = if sent then 1 else 0

-- The messages of `checkBuildStage` over a series of answers.
unfoldable pub messages : Bool → Text → Text → List BuildAnswers → NotifiedFailures → ℕ
messages configured owner repo [] notified = 0
messages configured owner repo (a ∷ answers) notified =
    let (told, build) = check_build_stage configured owner repo (some a) notified in
    one_if told.1 + messages configured owner repo answers told.0

abbrev is_id : ℕ → Option ℕ → Bool
is_id id none = false
is_id id (some other) = other == id

module _ (configured : Bool) (owner repo : Text) (run : GhaRunSummary) where
  -- A message is due: the run completed without success, and is not the one told last.
  abbrev pub is_due : NotifiedFailures → Bool
  is_due notified =
      configured
      && run.status == lit "completed"
      && not (is_text (lit "success") run.conclusion)
      && not (is_id run.id (lookup (failure_key owner repo) notified))

  abbrev IsRun : BuildAnswers → Type 0
  IsRun a = find (is_build_of a.head) a.runs ≡ some run

  abbrev told : (a : BuildAnswers) → NotifiedFailures → NotifiedFailures × Bool
  told a notified = (check_build_stage configured owner repo (some a) notified).0

  run_stage-told :
      (probes : FailureProbes) (notified : NotifiedFailures)
      → (run_stage configured owner repo probes run notified).0 ≡ (
          if is_due notified
          then (insert (failure_key owner repo) run.id notified, true)
          else (notified, false))
  unfolding run_stage maybe_notify_build_failure
  run_stage-told probes notified = ground arith

  told-run :
      (a : BuildAnswers) (notified : NotifiedFailures)
      → IsRun a
      → told a notified ≡ (
          if is_due notified
          then (insert (failure_key owner repo) run.id notified, true)
          else (notified, false))
  unfolding check_build_stage found_run_stage
  told-run a notified e =
      ap (λ o. (found_run_stage configured owner repo a.probes o notified).0) e
      ∙ run_stage-told a.probes notified

  messages-undue :
      (answers : List BuildAnswers) (notified : NotifiedFailures)
      → All IsRun answers
      → is_due notified ≡ false
      → messages configured owner repo answers notified ≡ 0
  unfolding messages
  messages-undue [] notified h e = refl
  messages-undue (a ∷ answers) notified h e =
      rw (told-run a notified h.0, e) (omega (arith, messages-undue answers notified h.1 e))

  insert-undue :
      (notified : NotifiedFailures)
      → is_due (insert (failure_key owner repo) run.id notified) ≡ false
  insert-undue notified = ground (
    arith,
    lookup-insert (failure_key owner repo) (failure_key owner repo) run.id notified,
    text_beq_refl (failure_key owner repo),
  )

  -- Where a series of polls in a row, the first of them included, all find the same run as it is
  -- now, exactly one message is sent if the run completed without success and is not the one told
  -- last for the repository (and messages are configured), and none otherwise.
  pub messages-once :
      (a : BuildAnswers) (answers : List BuildAnswers) (notified : NotifiedFailures)
      → All (λ b. find (is_build_of b.head) b.runs ≡ some run) (a ∷ answers)
      → messages configured owner repo (a ∷ answers) notified ≡ (if is_due notified then 1 else 0)
  unfolding messages
  messages-once a answers notified h = elim (Bool-cases (is_due notified)) [
    | inl e ↦
        rw (told-run a notified h.0, e)
          (omega (
            arith,
            messages-undue answers (insert (failure_key owner repo) run.id notified) h.1
                (insert-undue notified),
          ))
    | inr e ↦ rw (told-run a notified h.0, e) (omega (arith, messages-undue answers notified h.1 e))
  ]
