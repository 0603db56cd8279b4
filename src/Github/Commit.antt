-- ===== src/Github/Commit.antt =====
-- `commitFilesAtomic`: files and deletions in one commit on a branch.
pub mod Made
pub mod Something
use swkoo_kr.Prelude.{
  ℕ, Bool, true, false, not, ◌&&◌, ◌||◌, Option, none, some, List, [], ◌∷◌, ◌++◌, if◌then◌else◌,
  ◌==◌, nat_eq, or_else, any, Result, ok, err, ◌>>=◌, map,
}
use swkoo_kr.Prelude.Texts.{Text, lit, text_eq, to_lower, includes, starts_with}

-- The answer of a request to GitHub that fails: its status and its message, if it has them.
pub record HttpFailure : Type 0 where
  pub status : Option ℕ
  pub message : Text

pub data CommitError : Type 0 where
  source_changed nothing_to_commit branch_protected conflict ref_not_updated : CommitError
  request_failed : HttpFailure → CommitError

-- An entry of a new tree; `sha` is null for a deletion. The mode is `100644`, the type `blob`.
pub record GitTreeEntry : Type 0 where
  pub path : Text
  pub sha : Option Text

pub record TreeItem : Type 0 where
  pub path : Text
  pub is_blob : Bool

-- The Git Data API of one repository.
pub record GitData : Type 0 where
  pub head : Text → Result HttpFailure Text
  pub tree_of : Text → Result HttpFailure Text
  pub items : Text → Result HttpFailure (List TreeItem)
  pub create_blob : Text → Result HttpFailure Text
  pub create_tree : Text → List GitTreeEntry → Result HttpFailure Text
  pub create_commit : Text → Text → List Text → Result HttpFailure Text
  pub update_ref : Text → Text → Result HttpFailure (Unit {0})

pub record CommitArgs : Type 0 where
  pub branch : Text
  pub files : List (Text × Text)
  pub message : Text
  pub expected_head_sha : Option Text
  pub replace_dir_path : Option Text
  pub delete_paths : List Text

abbrev pub sent {ℓ} : {A : Type ℓ} → Result HttpFailure A → Result CommitError A
sent (ok a) = ok a
sent (err e) = err (CommitError.request_failed e)

abbrev pub has_path : Text → List (Text × Text) → Bool
has_path path files = any (λ (f : Text × Text). f.0 == path) files

abbrev pub deletion : Text → GitTreeEntry
deletion path = record { path = path; sha = none }

-- The entries below the directory that no new file replaces.
unfoldable pub orphans : Text → List (Text × Text) → List TreeItem → List GitTreeEntry
orphans dir files [] = []
orphans dir files (item ∷ items) =
    let rest = orphans dir files items in
    if item.is_blob && starts_with item.path (dir ++ lit "/") && not (has_path item.path files)
    then deletion item.path ∷ rest
    else rest

unfoldable pub path_deletions : List (Text × Text) → List Text → List GitTreeEntry
path_deletions files [] = []
path_deletions files (path ∷ paths) =
    let rest = path_deletions files paths in
    if has_path path files then rest else deletion path ∷ rest

abbrev pub is_status : ℕ → HttpFailure → Bool
is_status n e = elim e.status [ none ↦ false | some s ↦ s == n ]

-- `/repository rule|protected branch/i`
abbrev names_rule : Text → Bool
names_rule message =
    includes (to_lower message) (lit "repository rule")
    || includes (to_lower message) (lit "protected branch")

unfoldable pub ref_error : HttpFailure → CommitError
ref_error e =
    if is_status 403 e && names_rule e.message
    then CommitError.branch_protected
    else if is_status 409 e || is_status 422 e
    then CommitError.conflict
    else CommitError.ref_not_updated

abbrev pub moved : Text → Result HttpFailure (Unit {0}) → Result CommitError Text
moved sha (ok done) = ok sha
moved sha (err e) = err (ref_error e)

abbrev pub is_expected : Option Text → Text → Bool
is_expected none base = true
is_expected (some sha) base = sha == [] || sha == base

module _ (git : GitData) where
  abbrev pub dir_deletions :
      Text → List (Text × Text) → Option Text → Result CommitError (List GitTreeEntry)
  dir_deletions tree files none = ok []
  dir_deletions tree files (some []) = ok []
  dir_deletions tree files (some (c ∷ dir)) =
      sent (git.items tree) >>= λ items. ok (orphans (c ∷ dir) files items)

  -- A blob for each file.
  unfoldable pub create_blobs : List (Text × Text) → Result CommitError (List GitTreeEntry)
  create_blobs [] = ok []
  create_blobs ((path, content) ∷ files) =
      let rest = create_blobs files in
      sent (git.create_blob content) >>= λ sha.
      rest >>= λ entries. ok (record { path = path; sha = some sha } ∷ entries)

  -- A tree that is the one of the head needs no commit.
  unfoldable pub commit_tree : CommitArgs → Text → Text → Text → Result CommitError Text
  commit_tree args base base_tree tree =
      if tree == base_tree
      then ok base
      else sent (git.create_commit args.message tree (base ∷ [])) >>= λ sha.
          moved sha (git.update_ref args.branch sha)

  unfoldable pub commit_entries :
      CommitArgs → Text → Text → List GitTreeEntry → Result CommitError Text
  commit_entries args base base_tree [] = err CommitError.nothing_to_commit
  commit_entries args base base_tree (entry ∷ entries) =
      sent (git.create_tree base_tree (entry ∷ entries)) >>= commit_tree args base base_tree

  unfoldable pub commit_from : CommitArgs → Text → Result CommitError Text
  commit_from args base = sent (git.tree_of base) >>= λ tree.
      dir_deletions tree args.files args.replace_dir_path >>= λ dir.
      create_blobs args.files >>= λ blobs.
      commit_entries args base tree ((dir ++ path_deletions args.files args.delete_paths) ++ blobs)

  unfoldable pub commit_on : CommitArgs → Text → Result CommitError Text
  commit_on args base =
      if is_expected args.expected_head_sha base
      then commit_from args base
      else err CommitError.source_changed

  -- `commitFilesAtomic`
  unfoldable pub commit_files_atomic : CommitArgs → Result CommitError Text
  commit_files_atomic args = sent (git.head args.branch) >>= commit_on args
