-- ===== src/Patch/Changes.antt =====
-- `validatePatchResult`: which changes of a lockfile are accepted.
use swkoo_kr.Prelude.{
  ℕ, ◌+◌, ◌*◌, ◌-◌, Bool, true, false, not, ◌&&◌, ◌||◌, Option, none, some, List, [], ◌∷◌, ◌++◌,
  map, if◌then◌else◌, is_some, all, keep, length, ltb, nat_beq, Result, ok, err, ◌>>=◌, guard, ◌>>◌,
  ◌==◌,
}
use swkoo_kr.Prelude.Texts.{Text, text_eq, is_digit, split}
use swkoo_kr.Prelude.Integers.{ℤ, pos}
use swkoo_kr.Prelude.Maps.{lookup}
use swkoo_kr.Patch.Lockfile.{PatchError, Json, Semver, Lock, Root, Entry, package_name}
use swkoo_kr.Patch.Input.{validate_patch_input}

pub record PackageChange : Type 0 where
  pub path : Text
  pub from : Option Text
  pub to : Option Text

-- `PatchResult`; a count that is no integer is none.
pub record PatchResult : Type 0 where
  pub lockfile : Text
  pub before : Option ℤ
  pub after : Option ℤ

pub record Version : Type 0 where
  pub major : ℕ
  pub minor : ℕ
  pub patch : ℕ

-- `Number` of decimal digits
abbrev value_from : ℕ → Text → ℕ
value_from n [] = n
value_from n (c ∷ t) = value_from (n * 10 + (c - b'0')) t

abbrev pub number : Text → ℕ
number t = value_from 0 t

abbrev is_number : Text → Bool
is_number t = not (t == []) && all is_digit t

abbrev version_of : List Text → Option Version
version_of (a ∷ b ∷ c ∷ []) =
    if is_number a && is_number b && is_number c
    then some (record { major = number a; minor = number b; patch = number c })
    else none
version_of _ = none

-- `/^\d+\.\d+\.\d+$/` and the three numbers of a text that it matches
unfoldable pub plain_version : Text → Option Version
plain_version t = version_of (split b'.' t)

-- What has to be reviewed by hand: another major or 0.x minor version, or an older one.
abbrev pub is_risky : Version → Version → Bool
is_risky a b =
    not (nat_beq a.major b.major)
    || nat_beq a.major 0 && not (nat_beq a.minor b.minor)
    || ltb b.minor a.minor
    || nat_beq b.minor a.minor && ltb b.patch a.patch

abbrev version_in : List (Text × Entry) → Text → Option Text
version_in packages path = elim (lookup path packages) [ none ↦ none | some e ↦ e.version ]

-- The two differ (`from !== to`).
abbrev pub differs : Option Text → Option Text → Bool
differs none none = false
differs (some a) (some b) = not (a == b)
differs _ _ = true

-- A version that is there and is not empty has three numbers.
abbrev pub has_plain : Option Text → Bool
has_plain none = true
has_plain (some []) = true
has_plain (some (c ∷ t)) = is_some (plain_version (c ∷ t))

abbrev pub version_or_none : Option Text → Option Version
version_or_none none = none
version_or_none (some t) = plain_version t

abbrev pub check_candidate : Option Version → Option Version → Result PatchError (Unit {0})
check_candidate none b = err PatchError.prerelease
check_candidate (some a) none = err PatchError.prerelease
check_candidate (some a) (some b) = guard (not (is_risky a b)) PatchError.not_a_patch

-- Every candidate is a version that `to` is a patch of.
abbrev pub check_candidates : List (Option Text) → Option Version → Result PatchError (Unit {0})
check_candidates [] b = ok tt
check_candidates (p ∷ ps) b = check_candidate (version_or_none p) b >> check_candidates ps b

-- The versions of the package that the old lockfile has at any path
abbrev old_versions : List (Text × Entry) → Text → List (Option Text)
old_versions [] name = []
old_versions ((path, e) ∷ rest) name =
    if package_name path == name then e.version ∷ old_versions rest name else old_versions rest name

abbrev pub candidates : List (Text × Entry) → PackageChange → List (Option Text)
candidates old c = elim c.from [
  | none ↦ old_versions old (package_name c.path)
  | some t ↦ if t == [] then old_versions old (package_name c.path) else some t ∷ []
]

abbrev pub check_target :
    List (Text × Entry) → PackageChange → Option Text → Result PatchError (Unit {0})
check_target old c none = ok tt
check_target old c (some []) = ok tt
check_target old c (some (d ∷ t)) = check_candidates (candidates old c) (plain_version (d ∷ t))

abbrev pub check_change : List (Text × Entry) → PackageChange → Result PatchError (Unit {0})
check_change old c =
    guard (has_plain c.from && has_plain c.to) PatchError.prerelease >> check_target old c c.to

abbrev pub change_at : List (Text × Entry) → List (Text × Entry) → Text → PackageChange
change_at old new path = record {
  path = path;
  from = version_in old path;
  to = version_in new path;
}

abbrev paths : List (Text × Entry) → List Text
paths packages = map (λ p. p.0) packages

-- The paths of the old lockfile, and then those that only the new one has.
abbrev pub all_paths : List (Text × Entry) → List (Text × Entry) → List Text
all_paths old new = paths old ++ keep (λ path. not (is_some (lookup path old))) (paths new)

abbrev pub changes_at :
    List (Text × Entry) → List (Text × Entry) → List Text → Result PatchError (List PackageChange)
changes_at old new [] = ok []
changes_at old new (path ∷ more) =
    let rest = changes_at old new more in
    let c = change_at old new path in
    if differs c.from c.to then (check_change old c >> rest >>= (λ cs. ok (c ∷ cs))) else rest

abbrev pub count_changes : List PackageChange → Result PatchError (List PackageChange)
count_changes changes =
    if nat_beq (length changes) 0 || ltb 100 (length changes)
    then err PatchError.no_changes
    else ok changes

-- The count of vulnerabilities is an integer that is not negative and has become less.
abbrev pub is_fewer : Option ℤ → Option ℤ → Bool
is_fewer (some (pos before)) (some (pos after)) = ltb after before
is_fewer _ _ = false

abbrev pub same_root : Option Root → Option Root → Bool
same_root (some r) (some s) = r.json == s.json
same_root none none = true
same_root _ _ = false

abbrev pub compare_locks : PatchResult → Lock → Lock → Result PatchError (List PackageChange)
compare_locks result old new = do
  _ ← guard (same_root old.root new.root) PatchError.root_changed
  _ ← guard (is_fewer result.before result.after) PatchError.not_fewer
  changes ← changes_at old.packages new.packages (all_paths old.packages new.packages)
  count_changes changes

abbrev pub compare_parsed :
    PatchResult → Option Lock → Option Lock → Result PatchError (List PackageChange)
compare_parsed result (some old) (some new) = compare_locks result old new
compare_parsed result _ _ = err PatchError.not_json

-- `validatePatchResult`
unfoldable pub validate_patch_result :
    Json → Semver → Text → Text → PatchResult → Result PatchError (List PackageChange)
validate_patch_result json semver manifest original result =
    validate_patch_input json semver manifest result.lockfile
    >> compare_parsed result (json.lock_of original) (json.lock_of result.lockfile)
