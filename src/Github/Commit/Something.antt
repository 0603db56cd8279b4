-- ===== src/Github/Commit/Something.antt =====
-- When there is something to commit.
use swkoo_kr.Prelude.{
  ◌≡◌, ◌≢◌, inl, inr, false, Option, none, some, List, [], ◌∷◌, ◌++◌, ◌==◌, Result, ok, err,
  Bool-cases, arith, bind-err,
}
use swkoo_kr.Prelude.Texts.{Text, text_eq}
use swkoo_kr.Github.Commit.{
  GitData, CommitArgs, CommitError, HttpFailure, GitTreeEntry, sent, has_path, dir_deletions,
  create_blobs, path_deletions, commit_tree, commit_entries, commit_from, commit_on,
  commit_files_atomic, is_expected, moved, ref_error, deletion,
}

sent-something {ℓ} :
    {A : Type ℓ} (r : Result HttpFailure A) → sent r ≢ err CommitError.nothing_to_commit
sent-something (ok a) e = cc
sent-something (err f) e = cc

ref_error-something : (f : HttpFailure) → ref_error f ≢ CommitError.nothing_to_commit
unfolding ref_error
ref_error-something f e = ground arith

moved-something :
    (sha : Text) (r : Result HttpFailure (Unit {0}))
    → moved sha r ≢ err CommitError.nothing_to_commit
moved-something sha (ok done) e = cc
moved-something sha (err f) e = ref_error-something f (cc)

module _ (git : GitData) (args : CommitArgs) (base : Text) where
  commit_tree-something :
      (base_tree tree : Text)
      → commit_tree git args base base_tree tree ≢ err CommitError.nothing_to_commit
  unfolding commit_tree
  commit_tree-something base_tree tree e = elim (Bool-cases (tree == base_tree)) [
    | inl t ↦ cc (rw t at e)
    | inr f ↦
        elim (bind-err (sent (git.create_commit args.message tree (base ∷ []))) _ _ (rw f at e)) [
          | inl s ↦ sent-something _ s
          | inr (sha, m) ↦ moved-something sha _ m
        ]
  ]

  entry-something :
      (base_tree : Text) (entry : GitTreeEntry) (entries : List GitTreeEntry)
      → commit_entries git args base base_tree (entry ∷ entries) ≢ err CommitError.nothing_to_commit
  unfolding commit_entries
  entry-something base_tree entry entries e =
      elim (bind-err (sent (git.create_tree base_tree (entry ∷ entries))) _ _ e) [
        | inl s ↦ sent-something _ s
        | inr (tree, m) ↦ commit_tree-something base_tree tree m
      ]

  entries-something :
      (base_tree : Text) (before : List GitTreeEntry) (entry : GitTreeEntry)
      (after blobs : List GitTreeEntry)
      → commit_entries git args base base_tree ((before ++ entry ∷ after) ++ blobs)
        ≢ err CommitError.nothing_to_commit
  entries-something base_tree [] entry after blobs e = entry-something base_tree entry _ e
  entries-something base_tree (x ∷ before) entry after blobs e = entry-something base_tree x _ e

dir_deletions-something :
    (git : GitData) (tree : Text) (files : List (Text × Text)) (dir : Option Text)
    → dir_deletions git tree files dir ≢ err CommitError.nothing_to_commit
dir_deletions-something git tree files none e = cc
dir_deletions-something git tree files (some []) e = cc
dir_deletions-something git tree files (some (c ∷ dir)) e =
    elim (bind-err (sent (git.items tree)) _ _ e) [
      | inl s ↦ sent-something _ s
      | inr (items, m) ↦ cc m
    ]

create_blobs-something :
    (git : GitData) (files : List (Text × Text))
    → create_blobs git files ≢ err CommitError.nothing_to_commit
unfolding create_blobs
create_blobs-something git [] e = cc
create_blobs-something git ((path, content) ∷ files) e =
    elim (bind-err (sent (git.create_blob content)) _ _ e) [
      | inl s ↦ sent-something _ s
      | inr (sha, m) ↦ elim (bind-err (create_blobs git files) _ _ m) [
        | inl s ↦ create_blobs-something git files s
        | inr (entries, n) ↦ cc n
      ]
    ]

-- A request that deletes a path which it does not also write is never told that there is nothing
-- to commit, whether the branch has the path or not.
pub commit_files_atomic-something :
    (git : GitData) (args : CommitArgs) (path : Text) (paths : List Text)
    → args.delete_paths ≡ path ∷ paths
    → has_path path args.files ≡ false
    → commit_files_atomic git args ≢ err CommitError.nothing_to_commit
unfolding commit_files_atomic commit_on commit_from path_deletions commit_entries commit_tree
commit_files_atomic-something git args path paths d h e =
    elim (bind-err (sent (git.head args.branch)) _ _ e) [
      | inl s ↦ sent-something _ s
      | inr (base, on) ↦ elim (Bool-cases (is_expected args.expected_head_sha base)) [
        | inr f ↦ cc (rw f at on)
        | inl t ↦ elim (bind-err (sent (git.tree_of base)) _ _ (rw t at on)) [
          | inl s ↦ sent-something _ s
          | inr (tree, e₁) ↦
              elim (bind-err (dir_deletions git tree args.files args.replace_dir_path) _ _ e₁) [
                | inl s ↦ dir_deletions-something git tree args.files args.replace_dir_path s
                | inr (dir, e₂) ↦ elim (bind-err (create_blobs git args.files) _ _ e₂) [
                  | inl s ↦ create_blobs-something git args.files s
                  | inr (blobs, e₃) ↦
                      entries-something git args base tree dir (deletion path)
                        (path_deletions args.files paths) blobs (rw (d, h) at e₃)
                ]
              ]
        ]
      ]
    ]
