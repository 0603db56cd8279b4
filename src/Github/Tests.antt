-- ===== src/Github/Tests.antt =====
-- Commits and listings at concrete answers of GitHub.
use swkoo_kr.Prelude.{
  map, keep, ◌≡◌, ◌≢◌, refl, true, false, none, some, List, [], ◌∷◌, ok, err, nat_eq, arith,
}
use swkoo_kr.Prelude.Texts.{Text, lit, text_eq, text_beq, starts_with}
use swkoo_kr.Github.Commit.{
  GitData, CommitArgs, CommitError, path_deletions, orphans, create_blobs, commit_tree,
  commit_entries, commit_from, commit_on, commit_files_atomic,
}
use swkoo_kr.Github.Commit.Made.{IsCommitted, commit_files_atomic-IsCommitted}
use swkoo_kr.Github.Commit.Something.{commit_files_atomic-something}
use swkoo_kr.Github.Repositories.{OrgRepo, archived_from, list_archived_repos, assert_permissions}
use swkoo_kr.Github.Repositories.Paging.{IsListing, as_archived, list_archived_repos-all}

unfoldable pub run : Unit {0}
unfolding lit text_beq starts_with path_deletions orphans create_blobs commit_tree commit_entries
    commit_from commit_on commit_files_atomic archived_from list_archived_repos assert_permissions
run = tt

-- A repository whose head is `base`, with the tree `tree`, that takes what it is sent.
abbrev pub git : GitData
git = record {
  head = λ branch. ok (lit "base");
  tree_of = λ sha. ok (lit "tree");
  items = λ tree. ok [];
  create_blob = λ content. ok (lit "blob");
  create_tree = λ base entries. ok (lit "changed");
  create_commit = λ message tree parents. ok (lit "made");
  update_ref = λ branch sha. ok tt;
}

abbrev args : CommitArgs
args = record {
  branch = lit "main";
  files = (lit "Dockerfile", lit "FROM node") ∷ [];
  message = lit "add";
  expected_head_sha = some (lit "base");
  replace_dir_path = none;
  delete_paths = lit "old" ∷ [];
}

tests :
    (commit_files_atomic git (record args { expected_head_sha = some (lit "seen") })
      ≡ err CommitError.source_changed)
    × (commit_files_atomic git (record args { files = []; delete_paths = [] })
        ≡ err CommitError.nothing_to_commit)
    × (assert_permissions [] ≡ false)
unfolding run
tests = (refl, refl, refl)

commit_files_atomic-IsCommitted_example : (base : Text) × IsCommitted git args base (lit "made")
unfolding run
commit_files_atomic-IsCommitted_example = commit_files_atomic-IsCommitted git args (lit "made") refl

commit_files_atomic-something_example :
    commit_files_atomic git args ≢ err CommitError.nothing_to_commit
unfolding run
commit_files_atomic-something_example =
    commit_files_atomic-something git args (lit "old") [] refl refl

abbrev listed : List OrgRepo
listed =
    record { name = lit "ann"; archived = true; updated_at = 3 }
    ∷ record { name = lit "bob"; archived = false; updated_at = 4 }
    ∷ []

list_archived_repos-all_example :
    list_archived_repos (λ page. ok listed) 1
    ≡ some (ok (map as_archived (keep (λ (r : OrgRepo). r.archived) listed)))
list_archived_repos-all_example =
    list_archived_repos-all (λ page. ok listed) listed 1
      (IsListing.last 1 listed (omega arith) refl) (omega arith)
