-- ===== src/Github/Repositories/Paging.antt =====
-- The pages of `listArchivedRepos`.
use swkoo_kr.Prelude.{
  ℕ, zero, suc, ◌+◌, ◌*◌, ◌<◌, ◌≡◌, refl, sym, ◌∙◌, ap, true, false, inl, inr, Bool-cases, keep,
  map, some, List, [], ◌∷◌, ◌++◌, append_assoc, length, length-append, ltb, Result, ok, arith,
}
use swkoo_kr.Github.Commit.{HttpFailure}
use swkoo_kr.Github.Repositories.{
  OrgRepo, ArchivedRepo, archived_of, archived_from, list_archived_repos,
}

-- A listing in pages of a hundred from a page on, as GitHub documents it: the last page is not full.
pub data IsListing (read_page : ℕ → Result HttpFailure (List OrgRepo))
    : ℕ → List OrgRepo → Type 0 where
  last :
      (page : ℕ) (repos : List OrgRepo)
      → length repos < 100
      → read_page page ≡ ok repos
      → IsListing read_page page repos
  full :
      (page : ℕ) (repos rest : List OrgRepo)
      → length repos ≡ 100
      → read_page page ≡ ok repos
      → IsListing read_page (page + 1) rest
      → IsListing read_page page (repos ++ rest)

archived_of-append :
    (xs ys : List OrgRepo) → archived_of (xs ++ ys) ≡ archived_of xs ++ archived_of ys
archived_of-append [] ys = refl
archived_of-append (r ∷ repos) ys = ground (arith, archived_of-append repos ys)

archived_from-all :
    (read_page : ℕ → Result HttpFailure (List OrgRepo)) (rounds : ℕ) {page : ℕ}
    {repos : List OrgRepo} (out : List ArchivedRepo)
    → IsListing read_page page repos
    → length repos < rounds * 100
    → archived_from read_page rounds page out ≡ some (ok (out ++ archived_of repos))
unfolding archived_from
archived_from-all read_page zero out listing h = absurd (omega arith)
archived_from-all read_page (suc rounds) out (IsListing.last page repos short e) h =
    let t : ltb (length repos) 100 ≡ true = ground arith in rw (e, t, archived_from) refl
archived_from-all read_page (suc rounds) out (IsListing.full page repos rest long e listing) h =
    let f : ltb (length repos) 100 ≡ false = ground arith in
    rw (e, f, archived_from)
      (archived_from-all read_page rounds (out ++ archived_of repos) listing
          (omega (arith, length-append repos rest))
        ∙ ap (λ x. some (ok x))
            (append_assoc out (archived_of repos) (archived_of rest)
              ∙ ap (λ x. out ++ x) (sym (archived_of-append repos rest))))

abbrev pub as_archived : OrgRepo → ArchivedRepo
as_archived r = record { name = r.name; archived_since = r.updated_at }

archived_of-keep :
    (repos : List OrgRepo)
    → archived_of repos ≡ map as_archived (keep (λ (r : OrgRepo). r.archived) repos)
archived_of-keep [] = refl
archived_of-keep (r ∷ repos) = elim (Bool-cases r.archived) [
  | inl e ↦ rw e (ap (λ xs. as_archived r ∷ xs) (archived_of-keep repos))
  | inr e ↦ rw e (archived_of-keep repos)
]

-- Over a finite listing the loop ends within one round for each hundred repositories and one more,
-- and gives each repository that has the mark `archived`, and no other, in their order, with the time
-- of its last update.
pub list_archived_repos-all :
    (read_page : ℕ → Result HttpFailure (List OrgRepo)) (repos : List OrgRepo) (rounds : ℕ)
    → IsListing read_page 1 repos
    → length repos < rounds * 100
    → list_archived_repos read_page rounds
      ≡ some (ok (map as_archived (keep (λ (r : OrgRepo). r.archived) repos)))
unfolding list_archived_repos
list_archived_repos-all read_page repos rounds listing h =
    archived_from-all read_page rounds [] listing h ∙ ap (λ x. some (ok x)) (archived_of-keep repos)
