-- ===== src/Patch/Input.antt =====
-- `validatePatchInput` and `overrideRanges`.
use swkoo_kr.Prelude.{
  ◌+◌, Bool, true, false, not, ◌&&◌, ◌||◌, Option, none, some, List, [], ◌∷◌, if◌then◌else◌,
  or_else, coalesce, all, ltb, nat_beq, Result, ok, err, ◌>>=◌, guard, ◌>>◌, ◌==◌,
}
use swkoo_kr.Prelude.Texts.{Text, lit, text_eq, starts_with, includes}
use swkoo_kr.Prelude.Maps.{lookup}
use swkoo_kr.Patch.Lockfile.{
  PatchError, Value, Section, Sections, Manifest, Entry, Root, Lock, Json, Semver, is_range,
  is_path, is_integrity, is_package_name, package_name, dependencies, dev_dependencies,
  optional_dependencies, peer_dependencies, text, other, absent, not_object, object,
}

-- `{ ...devDependencies, ...dependencies, ...optionalDependencies }[name]`
abbrev direct : Sections → Text → Option Value
direct s name =
    coalesce (lookup name (s optional_dependencies))
      (coalesce (lookup name (s dependencies)) (lookup name (s dev_dependencies)))

-- A value that starts with a dollar sign refers to a direct dependency, where there is one.
abbrev referred : Sections → Text → Value
referred s [] = text []
referred s (c ∷ name) =
    if nat_beq c b'$' then or_else (direct s name) (text (c ∷ name)) else text (c ∷ name)

abbrev range_of : Semver → Value → Result PatchError Text
range_of semver (text range) =
    if is_range range && semver.valid_range range then ok range else err PatchError.bad_range
range_of semver (other json) = err PatchError.bad_range

abbrev override_of : Semver → Sections → Text → Value → Result PatchError Text
override_of semver s name (other json) = err PatchError.bad_override
override_of semver s name (text value) =
    if is_package_name name then range_of semver (referred s value) else err PatchError.bad_override

abbrev ranges_of : Semver → Sections → List (Text × Value) → Result PatchError (List (Text × Text))
ranges_of semver s [] = ok []
ranges_of semver s ((name, value) ∷ more) = do
  range ← override_of semver s name value
  rest ← ranges_of semver s more
  ok ((name, range) ∷ rest)

-- `overrideRanges`
unfoldable pub override_ranges : Semver → Manifest → Result PatchError (List (Text × Text))
override_ranges semver m = elim m.overrides [
  | absent ↦ ok []
  | not_object ↦ err PatchError.bad_overrides
  | object entries ↦ ranges_of semver m.sections entries
]

abbrev value_eq : Value → Value → Bool
value_eq (text s) (text t) = s == t
value_eq (other s) (other t) = s == t
value_eq _ _ = false

-- The sections have the same JSON.
abbrev same_section : List (Text × Value) → List (Text × Value) → Bool
same_section [] [] = true
same_section ((k, v) ∷ xs) ((l, w) ∷ ys) = k == l && value_eq v w && same_section xs ys
same_section _ _ = false

abbrev is_spec : Text × Value → Bool
is_spec (name, text range) = is_range range
is_spec (name, other json) = false

abbrev check_section : Manifest → Root → Section → Result PatchError (Unit {0})
check_section m root s =
    guard (same_section (m.sections s) (root.sections s)) PatchError.not_in_step
    >> guard (all is_spec (m.sections s)) PatchError.not_a_range

abbrev is_valid_version : Semver → Text → Bool
is_valid_version semver version = elim (semver.valid version) [
  | none ↦ false
  | some v ↦ v == version
]

abbrev holds_for : (Text → Bool) → Option Text → Bool
holds_for p none = false
holds_for p (some t) = p t

abbrev pub is_public_package : Semver → Text → Entry → Bool
is_public_package semver path e =
    starts_with path (lit "node_modules/")
    && is_path path
    && not (includes path (lit ".."))
    && not e.is_link
    && holds_for (is_valid_version semver) e.version
    && holds_for (λ r. starts_with r (lit "https://registry.npmjs.org/")) e.resolved
    && holds_for is_integrity e.integrity

abbrev satisfies_override : Semver → List (Text × Text) → Text → Option Text → Bool
satisfies_override semver ranges name version = elim (lookup name ranges) [
  | none ↦ true
  | some range ↦ range == [] || holds_for (λ v. semver.satisfies v range) version
]

abbrev check_package : Semver → List (Text × Text) → Text × Entry → Result PatchError (Unit {0})
check_package semver ranges (path, e) =
    guard (is_public_package semver path e) (PatchError.bad_package path)
    >> guard (satisfies_override semver ranges (package_name path) e.version)
        (PatchError.override_broken (package_name path))

abbrev check_packages :
    Semver → List (Text × Text) → List (Text × Entry) → Result PatchError (Unit {0})
check_packages semver ranges [] = ok tt
check_packages semver ranges (p ∷ ps) =
    check_package semver ranges p >> check_packages semver ranges ps

abbrev check_root : Semver → Manifest → Lock → Root → Result PatchError (Unit {0})
check_root semver m lock root = do
  ranges ← override_ranges semver m
  _ ← check_section m root dependencies
  _ ← check_section m root dev_dependencies
  _ ← check_section m root optional_dependencies
  _ ← check_section m root peer_dependencies
  check_packages semver ranges lock.packages

abbrev check_lock : Semver → Manifest → Lock → Result PatchError (Unit {0})
check_lock semver m lock =
    if not (nat_beq lock.lockfile_version 2 || nat_beq lock.lockfile_version 3)
    then err PatchError.lock_format
    else elim lock.root [
      | none ↦ err PatchError.lock_format
      | some root ↦ check_root semver m lock root
    ]

abbrev check_parsed : Semver → Option Manifest → Option Lock → Result PatchError (Unit {0})
check_parsed semver (some m) (some lock) =
    guard (not m.has_workspaces) PatchError.workspaces
    >> (guard (not m.has_bundled) PatchError.bundled >> check_lock semver m lock)
check_parsed semver _ _ = err PatchError.not_json

-- `validatePatchInput`
unfoldable pub validate_patch_input : Json → Semver → Text → Text → Result PatchError (Unit {0})
validate_patch_input json semver manifest lockfile =
    if ltb 800000 (json.byte_length manifest + json.byte_length lockfile)
    then err PatchError.too_large
    else check_parsed semver (json.manifest_of manifest) (json.lock_of lockfile)
