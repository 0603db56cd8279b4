-- ===== src/Deploy/Register/Steps.antt =====
-- What a request has written, against what its answer tells.
use swkoo_kr.Prelude.{
  ◌≡◌, refl, sym, ◌∙◌, ap, ◌⊎◌, inl, inr, Bool, true, false, not, Option, none, some, List, [], ◌∷◌,
  ◌++◌, map, if◌then◌else◌, Result, ok, err,
}
use swkoo_kr.Prelude.Texts.{Text}
use swkoo_kr.Accounts.Db.{Db}
use swkoo_kr.Deploy.Names.{get_user_registration_path}
use swkoo_kr.Deploy.Source.Create.{created}
use swkoo_kr.Deploy.Handler.{Platform, Handler, Written, continue}
use swkoo_kr.Deploy.Register.{
  World, RegisterRequest, RegisterError, DeployStep, RenderParams, Authorised, authorise,
}
use swkoo_kr.Deploy.Register.Publish.{deploy, register_for_user, params_of, RegisterResponse}
use swkoo_kr.Deploy.Register.Checks.{IsAuthorised, authorise-ok}
use swkoo_kr.Deploy.Register.Silent.{is_late, authorise-IsSilent}

-- What a step writes.
abbrev pub step_write :
    World → Text → RegisterRequest → Authorised → RenderParams → DeployStep → Written
step_write w user_login req a p DeployStep.source_ready =
    Written.source_files req.full_name (created a.plan.files)
step_write w user_login req a p DeployStep.manifests_saved = Written.deploy_files (w.deploy_files p)
step_write w user_login req a p DeployStep.registration_saved =
    Written.registration (get_user_registration_path p.login) (w.registration p)

-- The step that follows on those.
abbrev pub step_after : List DeployStep → DeployStep
step_after [] = DeployStep.source_ready
step_after (s ∷ []) = DeployStep.manifests_saved
step_after (s ∷ t ∷ more) = DeployStep.registration_saved

-- The steps that an answer tells as completed.
abbrev pub told {ℓ} : {A : Type ℓ} → Result RegisterError A → List DeployStep
told (ok a) =
    DeployStep.source_ready ∷ DeployStep.manifests_saved ∷ DeployStep.registration_saved ∷ []
told (err (RegisterError.deploy_partial completed)) = completed
told (err e) = []

-- The step that has failed.
abbrev pub failed_step {ℓ} : {A : Type ℓ} → Result RegisterError A → Option DeployStep
failed_step (ok a) = none
failed_step (err (RegisterError.deploy_partial completed)) = some (step_after completed)
failed_step (err e) = if is_late e then some DeployStep.source_ready else none

abbrev pub left_by : World → Option DeployStep → List Written
left_by w none = []
left_by w (some step) = w.left step

abbrev refused {ℓ} : {A : Type ℓ} → Result RegisterError A → Bool
refused (ok a) = false
refused (err e) = not (is_late e)

-- Nothing is written and the answer is an error that tells of no step, or the writes are those of
-- the steps that the answer tells, in their order, and what the step that failed has left.
abbrev pub IsTold {ℓ} :
    {A : Type ℓ}
    → World
    → Text
    → RegisterRequest
    → List Written
    → Platform × Result RegisterError A
    → Type 0
IsTold w user_login req before (s, answer) =
    ((s.written ≡ before) × (refused answer ≡ true))
    ⊎ ((a : Authorised) × (subdomain : Text) × (domain : Option Text) × (s.written
          ≡ before
            ++ (map (step_write w user_login req a (params_of w user_login req a subdomain domain))
                  (told answer)
                ++ left_by w (failed_step answer))))

module _ (w : World) (user_login : Text) (req : RegisterRequest) where
  module _ (a : Authorised) (subdomain : Text) (domain : Option Text) (before : List Written) where
    abbrev p : RenderParams
    p = params_of w user_login req a subdomain domain

    abbrev writes : List DeployStep → List Written
    writes steps = map (step_write w user_login req a p) steps

    abbrev Traced : Platform × Result RegisterError RegisterResponse → Type 0
    Traced (s, answer) =
        s.written ≡ before ++ (writes (told answer) ++ left_by w (failed_step answer))

-- A registration that writes to any repository was authorised: the user is allowed, the repository
-- is the user's own and can be deployed, the plan of its changes was consented to and overwrites
-- nothing, and the account has no other application.
pub register_for_user-IsAuthorised :
    (w : World) (user_login : Text) (req : RegisterRequest) (s : Platform)
    → let (s', answer) = register_for_user w user_login req s in
      (s'.written ≡ s.written) ⊎ ((a : Authorised) × IsAuthorised w user_login req s a)
unfolding register_for_user
register_for_user-IsAuthorised w user_login req s = entered (authorise w user_login req s) refl
  where
    entered :
        (p : Platform × Result RegisterError Authorised)
        → authorise w user_login req s ≡ p
        → ((continue (deploy w user_login req) p).0.written ≡ s.written)
          ⊎ ((a : Authorised) × IsAuthorised w user_login req s a)
    entered (t, ok a) e = inr (a, (authorise-ok w user_login req s t a e).1)
    entered (t, err thrown) e = inl (
        sym (ap (λ (q : Platform × Result RegisterError Authorised). q.0.written) e)
        ∙ (authorise-IsSilent w user_login req s).0)
