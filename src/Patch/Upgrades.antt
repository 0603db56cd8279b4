-- ===== src/Patch/Upgrades.antt =====
-- What an accepted patch changes: `validatePatchResult`.
use swkoo_kr.Prelude.{
  ℕ, ◌≤◌, ◌<◌, ◌≡◌, ◌≢◌, ◌⊎◌, refl, ap, Bool, true, false, not, ◌&&◌, ◌||◌, Option, none, some,
  List, [], ◌∷◌, map, arith, keep, length, All, ltb, nat_beq, inl, inr, Bool-cases, Option-cases,
  ok, err, guard, ◌>>◌, bind-ok, ok-eq,
}
use swkoo_kr.Prelude.Texts.{Text, text_eq}
use swkoo_kr.Prelude.Integers.{ℤ, pos}
use swkoo_kr.Patch.Lockfile.{PatchError, Json, Semver, Lock, Entry}
use swkoo_kr.Patch.Input.{validate_patch_input}
use swkoo_kr.Patch.Changes.{
  PackageChange, PatchResult, Version, plain_version, is_risky, differs, has_plain, version_or_none,
  check_candidate, check_candidates, candidates, check_target, check_change, change_at, all_paths,
  changes_at, count_changes, is_fewer, same_root, compare_locks, validate_patch_result,
}

-- Within the major version, and the minor version of 0.x, and not older.
pub record IsUpgrade (a b : Version) : Type 0 where
  pub same_major : a.major ≡ b.major
  pub same_zero_minor : (a.major ≢ 0) ⊎ (a.minor ≡ b.minor)
  pub not_older : (a.minor < b.minor) ⊎ ((a.minor ≡ b.minor) × (a.patch ≤ b.patch))

abbrev pub IsPatchedBy : Version → Option Text → Type 0
IsPatchedBy b previous = (a : Version) × (version_or_none previous ≡ some a) × IsUpgrade a b

-- A version that a package is changed to upgrades the one that the path had, or, where the path is
-- new, every one that the package had.
abbrev pub IsAllowed : List (Text × Entry) → PackageChange → Option Text → Type 0
IsAllowed old c none = Unit
IsAllowed old c (some []) = Unit
IsAllowed old c (some (d ∷ t)) =
    (b : Version) × (plain_version (d ∷ t) ≡ some b) × All (IsPatchedBy b) (candidates old c)

guard-true : (b : Bool) (e : PatchError) → guard b e ≡ ok tt → b ≡ true
guard-true true e h = refl
guard-true false e h = absurd (cc)

is_risky-IsUpgrade : (a b : Version) → not (is_risky a b) ≡ true → IsUpgrade a b
is_risky-IsUpgrade a b safe = record {
  same_major = ground arith;
  same_zero_minor = ground arith;
  not_older = ground arith;
}

check_candidate-IsUpgrade :
    (a : Option Version) (b : Version)
    → check_candidate a (some b) ≡ ok tt
    → (v : Version) × (a ≡ some v) × IsUpgrade v b
check_candidate-IsUpgrade none b h = absurd (cc)
check_candidate-IsUpgrade (some a) b h =
    (a, refl, is_risky-IsUpgrade a b (guard-true _ PatchError.not_a_patch h))

check_candidates-All :
    (b : Version) (ps : List (Option Text))
    → check_candidates ps (some b) ≡ ok tt
    → All (IsPatchedBy b) ps
check_candidates-All b [] h = tt
check_candidates-All b (p ∷ ps) h =
    let (done, first, rest) = bind-ok (check_candidate (version_or_none p) (some b)) _ tt h in
    (check_candidate-IsUpgrade (version_or_none p) b first, check_candidates-All b ps rest)

has_plain-some :
    (d : ℕ) (t : Text)
    → has_plain (some (d ∷ t)) ≡ true
    → (b : Version) × (plain_version (d ∷ t) ≡ some b)
has_plain-some d t h = elim (Option-cases (plain_version (d ∷ t))) [
  | inl e ↦ absurd (cc)
  | inr found ↦ found
]

check_target-IsAllowed :
    (old : List (Text × Entry)) (c : PackageChange) (to : Option Text)
    → has_plain to ≡ true
    → check_target old c to ≡ ok tt
    → IsAllowed old c to
check_target-IsAllowed old c none plain h = tt
check_target-IsAllowed old c (some []) plain h = tt
check_target-IsAllowed old c (some (d ∷ t)) plain h =
    let (b, e) = has_plain-some d t plain in
    (b, e, check_candidates-All b (candidates old c) (rw e at h))

check_change-IsAllowed :
    (old : List (Text × Entry)) (c : PackageChange)
    → check_change old c ≡ ok tt
    → IsAllowed old c c.to
check_change-IsAllowed old c h =
    let (done, plain, rest) =
      bind-ok (guard (has_plain c.from && has_plain c.to) PatchError.prerelease) _ tt h in
    let both : (has_plain c.from && has_plain c.to) ≡ true =
      guard-true _ PatchError.prerelease plain in
    check_target-IsAllowed old c c.to (ground arith) rest

-- The paths at which the versions differ.
abbrev pub differences : List (Text × Entry) → List (Text × Entry) → List Text → List PackageChange
differences old new paths =
    keep (λ (c : PackageChange). differs c.from c.to) (map (change_at old new) paths)

changes_at-differences :
    (old new : List (Text × Entry)) (paths : List Text) (changes : List PackageChange)
    → changes_at old new paths ≡ ok changes
    → (changes ≡ differences old new paths)
      × All (λ (c : PackageChange). IsAllowed old c c.to) changes
changes_at-differences old new [] [] h = (refl, tt)
changes_at-differences old new [] (c ∷ cs) h = absurd (cc)
changes_at-differences old new (path ∷ more) changes h =
    let c = change_at old new path in
    elim (Bool-cases (differs c.from c.to)) [
      | inl e ↦
          let (cs, both, shape) =
            bind-ok (check_change old c >> changes_at old new more) _ changes (rw e at h) in
          let (done, checked, rest) = bind-ok (check_change old c) _ cs both in
          let (same, allowed) = changes_at-differences old new more cs rest in
          rw (← ok-eq shape)
            (rw e (ap (λ xs. c ∷ xs) same), (check_change-IsAllowed old c checked, allowed))
      | inr e ↦
          let (same, allowed) = changes_at-differences old new more changes (rw e at h) in
          (rw e same, allowed)
    ]

pub record IsPatch (old new : Lock) (result : PatchResult) (changes : List PackageChange)
    : Type 0 where
  pub complete :
      changes ≡ differences old.packages new.packages (all_paths old.packages new.packages)
  pub allowed : All (λ (c : PackageChange). IsAllowed old.packages c c.to) changes
  pub not_empty : 1 ≤ length changes
  pub not_many : length changes ≤ 100
  pub root_kept : same_root old.root new.root ≡ true
  pub fewer :
      (before after : ℕ) × (result.before ≡ some (pos before))
      × (result.after ≡ some (pos after))
      × (after < before)

count_changes-bounds :
    (cs changes : List PackageChange)
    → count_changes cs ≡ ok changes
    → (cs ≡ changes) × (1 ≤ length changes) × (length changes ≤ 100)
count_changes-bounds cs changes h =
    elim (Bool-cases (nat_beq (length cs) 0 || ltb 100 (length cs))) [
      | inl e ↦ let refused : err PatchError.no_changes ≡ ok changes = rw e at h in absurd (cc)
      | inr e ↦
          let same : cs ≡ changes = ok-eq (rw e at h) in
          (same, rw (← same) (ground arith), rw (← same) (ground arith))
    ]

is_fewer-lt :
    (before after : Option ℤ)
    → is_fewer before after ≡ true
    → (m n : ℕ) × (before ≡ some (pos m)) × (after ≡ some (pos n)) × (n < m)
is_fewer-lt (some (pos m)) (some (pos n)) h = (m, n, refl, refl, ground arith)
is_fewer-lt _ _ h = absurd (cc)

compare_locks-IsPatch :
    (result : PatchResult) (old new : Lock) (changes : List PackageChange)
    → compare_locks result old new ≡ ok changes
    → IsPatch old new result changes
compare_locks-IsPatch result old new changes h =
    let (u, root_kept, h') =
      bind-ok (guard (same_root old.root new.root) PatchError.root_changed) _ changes h in
    let (v, fewer, h'') =
      bind-ok (guard (is_fewer result.before result.after) PatchError.not_fewer) _ changes h' in
    let paths = all_paths old.packages new.packages in
    let (cs, read, counted) = bind-ok (changes_at old.packages new.packages paths) _ changes h'' in
    let (same, filled, few) = count_changes-bounds cs changes counted in
    let (complete, allowed) =
      changes_at-differences old.packages new.packages paths changes (rw same at read) in
    record {
      complete = complete;
      allowed = allowed;
      not_empty = filled;
      not_many = few;
      root_kept = guard-true _ PatchError.root_changed root_kept;
      fewer = is_fewer-lt result.before result.after (guard-true _ PatchError.not_fewer fewer);
    }

-- Where the result of a patch is accepted, the new lockfile passes the check of the input, its root
-- entry is the old one's, the count of vulnerabilities is less than before, and the changes told are
-- all the paths at which the versions differ, between 1 and 100; each version that a package is
-- changed to upgrades the one the path had, or every one the package had where the path is new,
-- within its major version, and for 0.x within its minor version.
pub validate_patch_result-IsPatch :
    (json : Json) (semver : Semver) (manifest original : Text) (result : PatchResult)
    (changes : List PackageChange) (old new : Lock)
    → json.lock_of original ≡ some old
    → json.lock_of result.lockfile ≡ some new
    → validate_patch_result json semver manifest original result ≡ ok changes
    → (validate_patch_input json semver manifest result.lockfile ≡ ok tt)
      × IsPatch old new result changes
unfolding validate_patch_result
validate_patch_result-IsPatch json semver manifest original result changes old new was is h =
    let (done, checked, compared) =
      bind-ok (validate_patch_input json semver manifest result.lockfile) _ changes h in
    (checked, compare_locks-IsPatch result old new changes (rw (was, is) at compared))
