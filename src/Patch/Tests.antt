-- ===== src/Patch/Tests.antt =====
-- The policy at concrete inputs: a package's patch is accepted, and its next major version is not.
use swkoo_kr.Prelude.{◌≡◌, refl, true, false, some, [], ◌∷◌, List, ok, err}
use swkoo_kr.Prelude.Texts.{Text, lit, text_eq, text_beq, split, starts_with, includes}
use swkoo_kr.Prelude.Integers.{pos}
use swkoo_kr.Prelude.Maps.{lookup}
use swkoo_kr.Patch.Lockfile.{
  PatchError, Value, Section, Entry, Lock, Json, Semver, Overrides, dependencies, package_name,
}
use swkoo_kr.Patch.Input.{override_ranges, validate_patch_input}
use swkoo_kr.Patch.Changes.{PackageChange, PatchResult, plain_version, validate_patch_result}
use swkoo_kr.Patch.Upgrades.{IsPatch, validate_patch_result-IsPatch}

abbrev entry : Text → Entry
entry version = record {
  is_link = false;
  version = some version;
  resolved = some (lit "https://registry.npmjs.org/a.tgz");
  integrity = some (lit "sha512-ab/c=");
}

abbrev only : Section → List (Text × Value)
only dependencies = (lit "a", Value.text (lit "^1.2.0")) ∷ []
only _ = []

abbrev lock : Text → Lock
lock version = record {
  lockfile_version = 3;
  root = some (record { json = lit "root"; sections = only });
  packages = (lit "node_modules/a", entry version) ∷ [];
}

-- A lockfile is named by the version of its package.
abbrev json : Json
json = record {
  byte_length = λ t. 1000;
  manifest_of = λ t. some (record {
    has_workspaces = false;
    has_bundled = false;
    overrides = Overrides.object ((lit "a", Value.text (lit "$a")) ∷ []);
    sections = only;
  });
  lock_of = λ t. some (lock t);
}

abbrev semver : Semver
semver = record { valid = some; valid_range = λ r. true; satisfies = λ v r. true }

abbrev result : Text → PatchResult
result version = record { lockfile = version; before = some (pos 2); after = some (pos 0) }

abbrev change : PackageChange
change = record { path = lit "node_modules/a"; from = some (lit "1.2.3"); to = some (lit "1.10.0") }

outcomes :
    (validate_patch_result json semver (lit "m") (lit "1.2.3") (result (lit "1.10.0"))
      ≡ ok (change ∷ []))
    × (validate_patch_result json semver (lit "m") (lit "1.2.3") (result (lit "2.0.0"))
        ≡ err PatchError.not_a_patch)
    × (validate_patch_result json semver (lit "m") (lit "0.2.3") (result (lit "0.3.0"))
        ≡ err PatchError.not_a_patch)
    × (validate_patch_result json semver (lit "m") (lit "1.2.3") (result (lit "1.2.2"))
        ≡ err PatchError.not_a_patch)
    × (validate_patch_result json semver (lit "m") (lit "1.2.3") (result (lit "1.2.4-rc"))
        ≡ err PatchError.prerelease)
    × (package_name (lit "node_modules/b/node_modules/@s/a") ≡ lit "@s/a")
unfolding lit text_beq split starts_with includes lookup override_ranges package_name
    validate_patch_input plain_version validate_patch_result
outcomes = (refl, refl, refl, refl, refl, refl)

validate_patch_result-IsPatch_example :
    (validate_patch_input json semver (lit "m") (lit "1.10.0") ≡ ok tt)
    × IsPatch (lock (lit "1.2.3")) (lock (lit "1.10.0")) (result (lit "1.10.0")) (change ∷ [])
validate_patch_result-IsPatch_example =
    validate_patch_result-IsPatch json semver (lit "m") (lit "1.2.3") (result (lit "1.10.0"))
      (change ∷ []) (lock (lit "1.2.3")) (lock (lit "1.10.0")) refl refl outcomes.0
