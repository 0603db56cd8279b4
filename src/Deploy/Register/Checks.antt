-- ===== src/Deploy/Register/Checks.antt =====
-- What the checks of `registerForUser` establish before anything is written.
use swkoo_kr.Prelude.{
  ℕ, ◌≡◌, refl, sym, ◌∙◌, ap, subst, inl, inr, true, false, ◌||◌, Option, none, some, [], ◌==◌, any,
  Result, ok, err, Bool-cases,
}
use swkoo_kr.Prelude.Texts.{Text, lit, text_eq, to_lower}
use swkoo_kr.Accounts.Users.{UserRow, find_by_login}
use swkoo_kr.Deploy.Storage.{StorageProfile}
use swkoo_kr.Deploy.Preview.{Probes, StackPreview, detect_stack}
use swkoo_kr.Deploy.Preview.Deployable.{is_deployable, is_nextjs, detect_stack-is_deployable}
use swkoo_kr.Deploy.Source.{SourceError, SourceSetupPlan}
use swkoo_kr.Deploy.Source.Create.{assert_reviewed, is_review}
use swkoo_kr.Deploy.Current.{CurrentDeployment, DeploymentState, StateError, get_current_deployment}
use swkoo_kr.Deploy.Handler.{Platform, pure, throw, audit_throw}
use swkoo_kr.Deploy.Handler.Laws.{pure-eq, continue-ok, if-ok}
use swkoo_kr.Deploy.Register.{
  World, RegisterRequest, RegisterError, Authorised, user_of, allowed_user, own_repo, supported,
  probed, sourced, inspected, with_consent, without_review, denied, reviewed_plan, is_deleting,
  only_app, stated, current_now, owner_name, repo_name, authorise, authorised, with_current,
  with_plan, with_preview, with_repo, with_user,
}

module _ (w : World) (user_login : Text) (req : RegisterRequest) where
  user_of-ok :
      (o : Option UserRow) (s s' : Platform) (user : UserRow)
      → user_of w user_login req o s ≡ (s', ok user)
      → (s ≡ s') × (o ≡ some user) × (user.is_allowed ≡ true)
  user_of-ok none s s' user e = absurd (cc)
  user_of-ok (some u) s s' user e =
      elim (if-ok u.is_allowed (pure u)
        (audit_throw w.now (denied w user_login req (lit "NOT_ALLOWED") none)
          RegisterError.not_allowed)
        s s' user e) [
          | inl (t, p) ↦
              let (same, v) = pure-eq p in
              (same, ap some v, subst (λ (x : UserRow). x.is_allowed ≡ true) v t)
          | inr (f, p) ↦ absurd (cc p)
        ]

  own_repo-ok :
      (owner repo : Text) (s s' : Platform) (done : Unit {0})
      → own_repo w user_login req owner repo s ≡ (s', ok done)
      → (s ≡ s') × ((to_lower owner == to_lower user_login) ≡ true)
  own_repo-ok owner repo s s' done e = elim (Bool-cases (owner == [] || repo == [])) [
    | inl t ↦ absurd (cc (rw t at e))
    | inr f ↦ elim (Bool-cases (to_lower owner == to_lower user_login)) [
      | inl t ↦ ((pure-eq (rw (f, t) at e)).0, t)
      | inr u ↦ absurd (cc (rw (f, u) at e))
    ]
  ]

  supported-ok :
      (v : StackPreview) (s s' : Platform) (found : ℕ × Option StorageProfile)
      → supported w user_login req v s ≡ (s', ok found)
      → (s ≡ s') × (is_nextjs v ≡ true)
  supported-ok (StackPreview.nextjs name port engine checks profile) s s' found e =
      ((pure-eq e).0, refl)
  supported-ok (StackPreview.unsupported key checks) s s' found e = absurd (cc)

  probed-ok :
      (r : Result Text Probes) (s s' : Platform) (found : ℕ × Option StorageProfile)
      → probed w user_login req r s ≡ (s', ok found)
      → (s ≡ s') × ((p : Probes) × (r ≡ ok p) × (is_deployable p ≡ true))
  probed-ok (ok p) s s' found e =
      let (same, next) = supported-ok (detect_stack p) s s' found e in
      (same, (p, refl, sym (detect_stack-is_deployable p) ∙ next))
  probed-ok (err message) s s' found e = absurd (cc)

  sourced-ok {ℓ} :
      {A : Type ℓ} (r : Result SourceError A) (s s' : Platform) (a : A)
      → sourced w user_login req r s ≡ (s', ok a)
      → (s ≡ s') × (r ≡ ok a)
  sourced-ok (ok b) s s' a e = let (same, v) = pure-eq e in (same, ap ok v)
  sourced-ok (err t) s s' a e = absurd (cc)

  reviewed_plan-ok :
      (repo : Text) (port : ℕ) (s s' : Platform) (plan : SourceSetupPlan)
      → reviewed_plan w user_login req repo port s ≡ (s', ok plan)
      → (s ≡ s')
        × (inspected w user_login req repo port ≡ ok plan)
        × (assert_reviewed plan req.setup_digest req.setup_consent ≡ ok tt)
        × (any is_review plan.files ≡ false)
  reviewed_plan-ok repo port s s' plan e =
      let (s₁, p, i, e₁) =
        continue-ok (with_consent w user_login req)
          (sourced w user_login req (inspected w user_login req repo port) s) s' plan e in
      let (s₂, done, r, e₂) =
        continue-ok (λ done. without_review w user_login req p)
          (sourced w user_login req (assert_reviewed p req.setup_digest req.setup_consent) s₁) s'
          plan e₁ in
      let (same₁, found) = sourced-ok (inspected w user_login req repo port) s s₁ p i in
      let (same₂, reviewed) =
        sourced-ok (assert_reviewed p req.setup_digest req.setup_consent) s₁ s₂ done r in
      elim (if-ok (any is_review p.files) (throw RegisterError.existing_files_differ) (pure p) s₂ s'
        plan e₂) [
          | inl (t, q) ↦ absurd (cc q)
          | inr (f, q) ↦
              let (same₃, v) = pure-eq q in
              (
                same₁ ∙ same₂ ∙ same₃,
                found ∙ ap ok v,
                subst
                    (λ (x : SourceSetupPlan).
                      assert_reviewed x req.setup_digest req.setup_consent ≡ ok tt)
                    v reviewed,
                subst (λ (x : SourceSetupPlan). any is_review x.files ≡ false) v f,
              )
        ]

  stated-ok {ℓ} :
      {A : Type ℓ} (r : Result StateError A) (s s' : Platform) (a : A)
      → stated w user_login req r s ≡ (s', ok a)
      → (s ≡ s') × (r ≡ ok a)
  stated-ok (ok b) s s' a e = let (same, v) = pure-eq e in (same, ap ok v)
  stated-ok (err t) s s' a e = absurd (cc)

  -- The application that there is, if any, is not being deleted and is the one asked for.
  abbrev pub IsOnly : Text → Option CurrentDeployment → Type 0
  IsOnly repo none = Unit
  IsOnly repo (some current) =
      (current.state ≡ DeploymentState.active) × ((to_lower current.repo == to_lower repo) ≡ true)

  not_deleting :
      (state : DeploymentState)
      → is_deleting w user_login req state ≡ false
      → state ≡ DeploymentState.active
  not_deleting DeploymentState.active e = refl
  not_deleting DeploymentState.deleting e = absurd (cc)

  only_app-ok :
      (repo : Text) (found current : Option CurrentDeployment) (s s' : Platform)
      → only_app w user_login req repo found s ≡ (s', ok current)
      → (s ≡ s') × (found ≡ current) × IsOnly repo current
  only_app-ok repo none current s s' e =
      let (same, v) = pure-eq e in (same, v, subst (IsOnly repo) v tt)
  only_app-ok repo (some c) current s s' e =
      elim (Bool-cases (is_deleting w user_login req c.state)) [
        | inl t ↦ absurd (cc (rw t at e))
        | inr f ↦ elim (Bool-cases (to_lower c.repo == to_lower repo)) [
          | inr g ↦ absurd (cc (rw (f, g) at e))
          | inl t ↦
              let (same, v) = pure-eq (rw (f, t) at e) in
              (same, v, subst (IsOnly repo) v (not_deleting c.state f, t))
        ]
      ]

-- Who deploys is allowed, the repository is theirs and can be deployed, the changes that an
-- inspection found were consented to and need no review, and the application is the one that the
-- account has, or its first.
pub record IsAuthorised (w : World) (user_login : Text) (req : RegisterRequest) (s : Platform)
    (a : Authorised) : Type 0 where
  pub found : find_by_login user_login s.db ≡ some a.user
  pub allowed : a.user.is_allowed ≡ true
  pub owner : a.owner ≡ owner_name w user_login req
  pub repo : a.repo ≡ repo_name w user_login req
  pub own : (to_lower a.owner == to_lower user_login) ≡ true
  pub deployable :
      (p : Probes) × (w.probes a.user.id a.owner a.repo ≡ ok p) × (is_deployable p ≡ true)
  pub consented : assert_reviewed a.plan req.setup_digest req.setup_consent ≡ ok tt
  pub unreviewed : any is_review a.plan.files ≡ false
  pub inspection : inspected w user_login req a.repo a.port ≡ ok a.plan
  pub state :
      get_current_deployment w.apps_domain (w.state_of (to_lower user_login)) user_login true s.db
      ≡ ok a.current
  pub only : IsOnly w user_login req a.repo a.current

pub authorise-ok :
    (w : World) (user_login : Text) (req : RegisterRequest) (s s' : Platform) (a : Authorised)
    → authorise w user_login req s ≡ (s', ok a)
    → (s ≡ s') × IsAuthorised w user_login req s a
unfolding authorise
authorise-ok w user_login req s s' a e₀ =
    let o = owner_name w user_login req in
    let r = repo_name w user_login req in
    let (s₁, user, h₁, e₁) =
      continue-ok (with_user w user_login req) (allowed_user w user_login req s) s' a e₀ in
    let (s₂, done, h₂, e₂) =
      continue-ok (λ done. with_repo w user_login req user) (own_repo w user_login req o r s₁) s' a
        e₁ in
    let (s₃, preview, h₃, e₃) =
      continue-ok (with_preview w user_login req user)
        (probed w user_login req (w.probes user.id o r) s₂) s' a e₂ in
    let (s₄, plan, h₄, e₄) =
      continue-ok (with_plan w user_login req user preview)
        (reviewed_plan w user_login req r preview.0 s₃) s' a e₃ in
    let (s₅, found, h₅, e₅) =
      continue-ok (with_current w user_login req user preview plan)
        (current_now w user_login req s₄) s' a e₄ in
    let (s₆, current, h₆, e₆) =
      continue-ok (λ current. pure (authorised w user_login req user preview plan current))
        (only_app w user_login req r found s₅) s' a e₅ in
    let (k₁, in_table, is_allowed) =
      user_of-ok w user_login req (find_by_login user_login s.db) s s₁ user h₁ in
    let (k₂, own) = own_repo-ok w user_login req o r s₁ s₂ done h₂ in
    let (k₃, deployable) = probed-ok w user_login req (w.probes user.id o r) s₂ s₃ preview h₃ in
    let (k₄, inspection, consented, unreviewed) =
      reviewed_plan-ok w user_login req r preview.0 s₃ s₄ plan h₄ in
    let (k₅, stated) =
      stated-ok w user_login req
        (get_current_deployment w.apps_domain (w.state_of (to_lower user_login)) user_login true
          s₄.db)
        s₄ s₅ found h₅ in
    let (k₆, same, only) = only_app-ok w user_login req r found current s₅ s₆ h₆ in
    let (k₇, v) = pure-eq e₆ in
    (
      k₁ ∙ k₂ ∙ k₃ ∙ k₄ ∙ k₅ ∙ k₆ ∙ k₇,
      subst (IsAuthorised w user_login req s) v (record {
        found = in_table;
        allowed = is_allowed;
        owner = refl;
        repo = refl;
        own = own;
        deployable = deployable;
        consented = consented;
        unreviewed = unreviewed;
        inspection = inspection;
        state =
            subst
              (λ (x : Platform).
                get_current_deployment w.apps_domain (w.state_of (to_lower user_login)) user_login
                  true x.db
                ≡ ok found)
              (sym (k₁ ∙ k₂ ∙ k₃ ∙ k₄)) stated
            ∙ ap ok same;
        only = only;
      }),
    )
