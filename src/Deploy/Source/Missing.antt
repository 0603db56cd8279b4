-- ===== src/Deploy/Source/Missing.antt =====
-- What `createMissing` writes into the user's repository.
use swkoo_kr.Prelude.{
  ◌≡◌, sym, ◌∙◌, ap, subst, ◌⊎◌, inl, inr, false, some, List, [], ◌∷◌, ◌++◌, true, ◌==◌, any, All,
  ok, Bool-cases, Result-cases, bind-ok, ok-eq, arith,
}
use swkoo_kr.Prelude.Rows.{any-false}
use swkoo_kr.Prelude.Texts.{Text, lit, text_eq, text_beq_iff}
use swkoo_kr.Github.Commit.{GitData, GitTreeEntry, is_expected, path_deletions, commit_files_atomic}
use swkoo_kr.Github.Commit.Made.{IsCommitted, commit_files_atomic-IsCommitted}
use swkoo_kr.Github.Repositories.{GithubApps}
use swkoo_kr.Deploy.Source.{
  SourceApi, SourceEntry, SourceFile, SourceSetupPlan, SourceTree, inspect,
}
use swkoo_kr.Deploy.Source.Create.{
  write_token, is_review, created, missing_args, commit_missing, create_missing,
}
use swkoo_kr.Deploy.Source.Planned.{IsWanted, IsNew, create_blobs-IsNew, inspect-IsPlan}

-- A commit on the head `base` and on it alone, to which `main` has moved; its tree is the head's
-- own with entries that are new.
abbrev pub IsCreation : GitData → Text → List SourceEntry → List (Text × Text) → Text → Type 0
IsCreation git base entries desired sha =
    (base_tree : Text) × (news : List GitTreeEntry) × (tree : Text) × (message : Text) × (git.head
        (lit "main")
      ≡ ok base)
    × (git.tree_of base ≡ ok base_tree)
    × All (IsNew git entries desired) news
    × (git.create_tree base_tree news ≡ ok tree)
    × (git.create_commit message tree (base ∷ []) ≡ ok sha)
    × (git.update_ref (lit "main") sha ≡ ok tt)

is_expected-same :
    (sha base : Text) → (sha == []) ≡ false → is_expected (some sha) base ≡ true → base ≡ sha
is_expected-same sha base filled h =
    let same : (sha == base) ≡ true = ground arith in sym ((text_beq_iff sha base).0 same)

module _ (git : GitData) (plan : SourceSetupPlan) (entries : List SourceEntry)
    (desired : List (Text × Text)) (sha : Text) (main : plan.branch ≡ lit "main")
    (filled : (plan.sha == []) ≡ false)
    (wanted : All (IsWanted entries desired) (created plan.files)) where
  IsCommitted-IsCreation :
      (base : Text)
      → IsCommitted git (missing_args plan) base sha
      → (sha ≡ plan.sha) ⊎ IsCreation git plan.sha entries desired sha
  unfolding path_deletions
  IsCommitted-IsCreation base c =
      let same = is_expected-same plan.sha base filled c.expected in
      elim c.made [
        | inl unchanged ↦ inl (unchanged ∙ same)
        | inr (tree, (base_tree, dir, blobs, old, no_dir, made, grown), commit, moved) ↦
            let empty : [] ≡ dir = ok-eq no_dir in
            inr (
              subst (λ x. IsCreation git x entries desired sha) same
                (
                  base_tree,
                  blobs,
                  tree,
                  (missing_args plan).message,
                  subst (λ x. git.head x ≡ ok base) main c.head,
                  old,
                  create_blobs-IsNew git entries desired (created plan.files) blobs made wanted,
                  subst
                      (λ (d : List GitTreeEntry).
                        git.create_tree base_tree ((d ++ []) ++ blobs) ≡ ok tree)
                      (sym empty) grown,
                  commit,
                  subst (λ x. git.update_ref x sha ≡ ok tt) main moved,
                ))
      ]

  commit_missing-creates :
      (apps : GithubApps) (files : List (Text × Text))
      → commit_missing apps git plan files ≡ ok sha
      → (sha ≡ plan.sha) ⊎ IsCreation git plan.sha entries desired sha
  unfolding commit_missing
  commit_missing-creates apps [] e = inl (sym (ok-eq e))
  commit_missing-creates apps (f ∷ files) e₀ =
      let (token, t, e) = bind-ok (write_token apps plan) _ sha e₀ in
      elim (Result-cases (commit_files_atomic git (missing_args plan))) [
        | inl (made, c) ↦
            let same : made ≡ sha = ok-eq (rw c at e) in
            let (base, is) =
              commit_files_atomic-IsCommitted git (missing_args plan) sha (c ∙ ap ok same) in
            IsCommitted-IsCreation base is
        | inr (t, c) ↦ absurd (cc (rw c at e))
      ]

-- A reviewed plan that `createMissing` carries out is of the head of `main` and has no file to
-- review. The result is that head, or a commit on that head alone whose tree is the head's own with
-- entries of which the inspected tree has none, each with the content wanted at its path.
pub create_missing-creates :
    (digest_of : Text → Text → Text → List SourceFile → Text) (apps : GithubApps) (api : SourceApi)
    (git : GitData) (repo : Text) (desired : List (Text × Text)) (plan : SourceSetupPlan)
    (sha : Text)
    → inspect digest_of apps api repo desired ≡ ok plan
    → (plan.sha == []) ≡ false
    → create_missing apps git plan ≡ ok sha
    → (plan.branch ≡ lit "main")
      × (api.head ≡ ok plan.sha)
      × All (λ f. is_review f ≡ false) plan.files
      × ((tree : SourceTree) × (api.tree plan.sha ≡ ok tree)
          × ((sha ≡ plan.sha) ⊎ IsCreation git plan.sha tree.entries desired sha))
unfolding create_missing
create_missing-creates digest_of apps api git repo desired plan sha e filled h =
    let (main, head, (tree, read, wanted)) =
      inspect-IsPlan digest_of apps api repo desired plan e in
    elim (Bool-cases (any is_review plan.files)) [
      | inl t ↦ absurd (cc (rw t at h))
      | inr f ↦ (
        main,
        head,
        any-false is_review plan.files f,
        (
          tree,
          read,
          commit_missing-creates git plan tree.entries desired sha main filled wanted apps
              (created plan.files) (rw f at h),
        ),
      )
    ]
