-- ===== src/Deploy/Source/Planned.antt =====
-- What a plan of `inspect` creates, and the tree entries that are made of it.
use swkoo_kr.Prelude.{
  ◌≡◌, ◌≢◌, refl, sym, ◌∙◌, ap, subst, inl, inr, Option, none, some, List, [], ◌∷◌, ◌==◌, find, All,
  Result, ok, err, Bool-cases, bind-ok, ok-eq, arith,
}
use mathlib.Core.List.{Mem, mem-cons_self, mem-cons_of_mem}
use swkoo_kr.Prelude.Rows.{All-map}
use swkoo_kr.Prelude.Texts.{Text, lit, text_eq, text_beq_iff}
use swkoo_kr.Github.Commit.{HttpFailure, GitData, GitTreeEntry, sent, create_blobs}
use swkoo_kr.Github.Commit.Made.{sent-ok}
use swkoo_kr.Github.Repositories.{GithubApps}
use swkoo_kr.Deploy.Source.{
  client, SourceApi, SourceEntry, SourceFile, SourceSetupPlan, SourceTree, FileAction, asked,
  unix_lines, Blob, is_plain, is_readable, blob_content, of_path, read_before, action_of, file_of,
  inspect_files, plan_of, inspect_tree, inspect_main, inspect,
}
use swkoo_kr.Deploy.Source.Create.{created}

-- The path has no entry in the tree.
abbrev pub IsAbsent : List SourceEntry → Text × Text → Type 0
IsAbsent entries f = find (of_path f.0) entries ≡ none

-- An entry of a new tree: its path is absent from the old one, and its blob is of the content that
-- the files wanted have at the path.
abbrev pub IsNew : GitData → List SourceEntry → List (Text × Text) → GitTreeEntry → Type 0
IsNew git entries desired e =
    (find (of_path e.path) entries ≡ none)
    × ((content : Text) × (blob : Text) × Mem (e.path, content) desired
        × (git.create_blob content ≡ ok blob)
        × (e.sha ≡ some blob))

blob_content-some : (path : Text) (r : Result HttpFailure Blob) → blob_content path r ≢ ok none
blob_content-some path (ok b) e = elim (Bool-cases (is_readable b)) [
  | inl t ↦ cc (rw t at e)
  | inr f ↦ cc (rw f at e)
]
blob_content-some path (err t) e = cc

read_before-none :
    (api : SourceApi) (path : Text) (o : Option SourceEntry)
    → read_before api path o ≡ ok none
    → o ≡ none
unfolding read_before
read_before-none api path none e = refl
read_before-none api path (some entry) e = elim (Bool-cases (is_plain entry)) [
  | inl t ↦ absurd (blob_content-some path (api.blob entry.sha) (rw t at e))
  | inr f ↦ absurd (cc (rw f at e))
]

action_of-create :
    (before : Option Text) (after : Text)
    → action_of before after ≡ FileAction.create
    → before ≡ none
unfolding action_of
action_of-create none after e = refl
action_of-create (some text) after e = ground arith

-- The tree lacks the file, and it is one of those wanted.
abbrev pub IsWanted : List SourceEntry → List (Text × Text) → Text × Text → Type 0
IsWanted entries desired f = IsAbsent entries f × Mem f desired

created-cons :
    (Q : Text × Text → Type 0) (api : SourceApi) (entries : List SourceEntry) (path after : Text)
    (before : Option Text) (rest : List SourceFile)
    → read_before api path (find (of_path path) entries) ≡ ok before
    → (find (of_path path) entries ≡ none → Q (path, after))
    → All Q (created rest)
    → All Q (created (file_of path after before ∷ rest))
unfolding created action_of
created-cons Q api entries path after none rest e q h = (q (read_before-none api path _ e), h)
created-cons Q api entries path after (some text) rest e q h =
    elim (Bool-cases (unix_lines text == unix_lines after)) [ inl t ↦ rw t h | inr f ↦ rw f h ]

-- Only a file that the tree does not have is created.
inspect_files-created :
    (api : SourceApi) (entries : List SourceEntry) (desired : List (Text × Text))
    (files : List SourceFile)
    → inspect_files api entries desired ≡ ok files
    → All (IsWanted entries desired) (created files)
unfolding inspect_files created
inspect_files-created api entries [] files e =
    subst (λ x. All (IsWanted entries []) (created x)) (ok-eq e) tt
inspect_files-created api entries ((path, after) ∷ desired) files e =
    let (before, b, e₁) = bind-ok (read_before api path (find (of_path path) entries)) _ files e in
    let (rest, r, e₂) = bind-ok (inspect_files api entries desired) _ files e₁ in
    let wanted = (path, after) ∷ desired in
    subst (λ x. All (IsWanted entries wanted) (created x)) (ok-eq e₂)
      (created-cons (IsWanted entries wanted) api entries path after before rest b
        (λ absent. (absent, mem-cons_self))
        (All-map (IsWanted entries desired) (IsWanted entries wanted) (created rest)
          (λ f k. (k.0, mem-cons_of_mem (path, after) k.1))
          (inspect_files-created api entries desired rest r)))

pub create_blobs-IsNew :
    (git : GitData) (entries : List SourceEntry) (desired files : List (Text × Text))
    (blobs : List GitTreeEntry)
    → create_blobs git files ≡ ok blobs
    → All (IsWanted entries desired) files
    → All (IsNew git entries desired) blobs
unfolding create_blobs
create_blobs-IsNew git entries desired [] blobs e h =
    subst (All (IsNew git entries desired)) (ok-eq e) tt
create_blobs-IsNew git entries desired ((path, content) ∷ files) blobs e h =
    let (blob, b, e₁) = bind-ok (sent (git.create_blob content)) _ blobs e in
    let (rest, r, e₂) = bind-ok (create_blobs git files) _ blobs e₁ in
    subst (All (IsNew git entries desired)) (ok-eq e₂) (
      (h.0.0, (content, blob, h.0.1, sent-ok _ blob b, refl)),
      create_blobs-IsNew git entries desired files rest r h.1,
    )

module _ (digest_of : Text → Text → Text → List SourceFile → Text) where
  -- The plan is of the head of `main`, and creates what the head's tree does not have.
  abbrev pub IsPlan : SourceApi → List (Text × Text) → SourceSetupPlan → Type 0
  IsPlan api desired plan =
      (plan.branch ≡ lit "main")
      × (api.head ≡ ok plan.sha)
      × ((tree : SourceTree) × (api.tree plan.sha ≡ ok tree)
          × All (IsWanted tree.entries desired) (created plan.files))

  asked-ok {ℓ} : {A : Type ℓ} (r : Result HttpFailure A) (a : A) → asked r ≡ ok a → r ≡ ok a
  asked-ok (ok b) a e = cc
  asked-ok (err f) a e = absurd (cc)

  inspect_tree-created :
      (api : SourceApi) (repo : Text) (desired : List (Text × Text)) (branch sha : Text)
      (tree : SourceTree) (plan : SourceSetupPlan)
      → inspect_tree digest_of api repo desired branch sha tree ≡ ok plan
      → (branch ≡ plan.branch)
        × (sha ≡ plan.sha)
        × All (IsWanted tree.entries desired) (created plan.files)
  unfolding inspect_tree
  inspect_tree-created api repo desired branch sha tree plan e = elim (Bool-cases tree.truncated) [
    | inl t ↦ absurd (cc (rw t at e))
    | inr f ↦
        let (files, h, p) = bind-ok (inspect_files api tree.entries desired) _ plan (rw f at e) in
        let same : plan_of digest_of repo branch sha files ≡ plan = ok-eq p in
        (
          ap (λ (x : SourceSetupPlan). x.branch) same,
          ap (λ (x : SourceSetupPlan). x.sha) same,
          subst (λ (x : SourceSetupPlan). All (IsWanted tree.entries desired) (created x.files))
              same (inspect_files-created api tree.entries desired files h),
        )
  ]

  pub inspect-IsPlan :
      (apps : GithubApps) (api : SourceApi) (repo : Text) (desired : List (Text × Text))
      (plan : SourceSetupPlan)
      → inspect digest_of apps api repo desired ≡ ok plan
      → IsPlan api desired plan
  unfolding inspect inspect_main
  inspect-IsPlan apps api repo desired plan e =
      let (token, k, e₀) = bind-ok (client apps repo) _ plan e in
      let (branch, b, e₁) = bind-ok (asked api.default_branch) _ plan e₀ in
      elim (Bool-cases (branch == lit "main")) [
        | inr f ↦ absurd (cc (rw f at e₁))
        | inl t ↦
            let (sha, h, e₂) = bind-ok (asked api.head) _ plan (rw t at e₁) in
            let (tree, k, e₃) = bind-ok (asked (api.tree sha)) _ plan e₂ in
            let (same_branch, same_sha, c) =
              inspect_tree-created api repo desired branch sha tree plan e₃ in
            (
              sym same_branch ∙ (text_beq_iff branch (lit "main")).0 t,
              asked-ok api.head sha h ∙ ap ok same_sha,
              (
                tree,
                subst (λ x. api.tree x ≡ ok tree) same_sha (asked-ok (api.tree sha) tree k),
                c,
              ),
            )
      ]
