-- ===== src/Github/Commit/Made.antt =====
-- What a commit rests on.
use swkoo_kr.Prelude.{
  ◌≡◌, refl, ◌⊎◌, inl, inr, subst, true, List, [], ◌∷◌, ◌++◌, ◌==◌, Result, ok, err, Bool-cases,
  bind-ok,
}
use swkoo_kr.Prelude.Texts.{Text, text_eq}
use swkoo_kr.Github.Commit.{
  GitData, CommitArgs, HttpFailure, GitTreeEntry, sent, dir_deletions, create_blobs, commit_tree,
  path_deletions, commit_entries, commit_from, commit_on, commit_files_atomic, is_expected, moved,
}

-- The tree is made from the head's own by the entries of the deletions and of a blob for each file.
abbrev pub IsTree : GitData → CommitArgs → Text → Text → Type 0
IsTree git args base tree =
    (base_tree : Text) × (dir : List GitTreeEntry) × (blobs : List GitTreeEntry) × (git.tree_of base
      ≡ ok base_tree)
    × (dir_deletions git base_tree args.files args.replace_dir_path ≡ ok dir)
    × (create_blobs git args.files ≡ ok blobs)
    × (git.create_tree base_tree ((dir ++ path_deletions args.files args.delete_paths) ++ blobs)
        ≡ ok tree)

-- The head was the one expected. The result is the head, if the tree is not changed, or a commit of
-- the files' tree whose only parent is the head, to which the branch has moved.
pub record IsCommitted (git : GitData) (args : CommitArgs) (base sha : Text) : Type 0 where
  pub head : git.head args.branch ≡ ok base
  pub expected : is_expected args.expected_head_sha base ≡ true
  pub made :
      (sha ≡ base)
      ⊎ ((tree : Text) × IsTree git args base tree
          × (git.create_commit args.message tree (base ∷ []) ≡ ok sha)
          × (git.update_ref args.branch sha ≡ ok tt))

module _ {ℓ} {A : Type ℓ} where
  pub sent-ok : (r : Result HttpFailure A) (a : A) → sent r ≡ ok a → r ≡ ok a
  sent-ok (ok b) a e = cc
  sent-ok (err f) a e = absurd (cc)

moved-ok :
    (sha sha' : Text) (r : Result HttpFailure (Unit {0}))
    → moved sha r ≡ ok sha'
    → (sha ≡ sha') × (r ≡ ok tt)
moved-ok sha sha' (ok tt) e = (cc, refl)
moved-ok sha sha' (err f) e = absurd (cc)

module _ (git : GitData) (args : CommitArgs) (base sha : Text) where
  abbrev IsMade : Type 0
  IsMade =
      (sha ≡ base)
      ⊎ ((tree : Text) × IsTree git args base tree
          × (git.create_commit args.message tree (base ∷ []) ≡ ok sha)
          × (git.update_ref args.branch sha ≡ ok tt))

  commit_tree-made :
      (base_tree tree : Text)
      → IsTree git args base tree
      → commit_tree git args base base_tree tree ≡ ok sha
      → IsMade
  unfolding commit_tree
  commit_tree-made base_tree tree shape e = elim (Bool-cases (tree == base_tree)) [
    | inl t ↦ inl (let same : ok base ≡ ok sha = rw t at e in cc)
    | inr f ↦
        let (made, c, m) =
          bind-ok (sent (git.create_commit args.message tree (base ∷ []))) _ sha (rw f at e) in
        let (same, u) = moved-ok made sha (git.update_ref args.branch made) m in
        inr (
          tree,
          shape,
          subst (λ x. git.create_commit args.message tree (base ∷ []) ≡ ok x) same
              (sent-ok _ made c),
          subst (λ x. git.update_ref args.branch x ≡ ok tt) same u,
        )
  ]

  commit_entries-made :
      (base_tree : Text) (entries : List GitTreeEntry)
      → commit_entries git args base base_tree entries ≡ ok sha
      → (tree : Text) × (git.create_tree base_tree entries ≡ ok tree)
        × (commit_tree git args base base_tree tree ≡ ok sha)
  unfolding commit_entries
  commit_entries-made base_tree [] e = absurd (cc)
  commit_entries-made base_tree (entry ∷ entries) e =
      let (tree, t, made) = bind-ok (sent (git.create_tree base_tree (entry ∷ entries))) _ sha e in
      (tree, sent-ok _ tree t, made)

  commit_from-made : commit_from git args base ≡ ok sha → IsMade
  unfolding commit_from
  commit_from-made e =
      let (base_tree, t, e₁) = bind-ok (sent (git.tree_of base)) _ sha e in
      let (dir, d, e₂) =
        bind-ok (dir_deletions git base_tree args.files args.replace_dir_path) _ sha e₁ in
      let (blobs, b, e₃) = bind-ok (create_blobs git args.files) _ sha e₂ in
      let (tree, made, e₄) = commit_entries-made base_tree _ e₃ in
      commit_tree-made base_tree tree (base_tree, dir, blobs, sent-ok _ base_tree t, d, b, made) e₄

-- A commit that is made stands on the head that was expected, and either changes nothing or is the
-- only new commit, made on that head alone, of the head's tree with the deletions and the files.
pub commit_files_atomic-IsCommitted :
    (git : GitData) (args : CommitArgs) (sha : Text)
    → commit_files_atomic git args ≡ ok sha
    → (base : Text) × IsCommitted git args base sha
unfolding commit_files_atomic commit_on
commit_files_atomic-IsCommitted git args sha e =
    let (base, h, on) = bind-ok (sent (git.head args.branch)) _ sha e in
    elim (Bool-cases (is_expected args.expected_head_sha base)) [
      | inl t ↦ (
        base,
        record {
          head = sent-ok _ base h;
          expected = t;
          made = commit_from-made git args base sha (rw t at on);
        },
      )
      | inr f ↦ absurd (cc (rw f at on))
    ]
