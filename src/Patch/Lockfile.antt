-- ===== src/Patch/Lockfile.antt =====
-- package.json and the lockfile as `validatePatchInput` reads them, and its regular expressions.
-- `JSON.parse` and `semver` are parameters.
use swkoo_kr.Prelude.{
  ℕ, Bool, false, not, ◌&&◌, ◌||◌, Option, none, some, List, [], ◌∷◌, if◌then◌else◌, or_else, any,
  all, drop, nat_beq, ◌==◌, String,
}
use swkoo_kr.Prelude.Texts.{Text, lit, text_eq, is_digit, is_lower, is_upper, starts_with}

pub data PatchError : Type 0 where
  too_large not_json workspaces bundled lock_format not_in_step not_a_range : PatchError
  bad_package override_broken : Text → PatchError
  bad_overrides bad_override bad_range : PatchError
  root_changed not_fewer prerelease not_a_patch no_changes : PatchError

-- A value of a section: a text, or another value by its JSON.
pub data Value : Type 0 where
  text other : Text → Value

pub data Section : Type 0 where
  dependencies dev_dependencies optional_dependencies peer_dependencies : Section

-- The keys of an object in their order; a section that is missing or null is empty.
abbrev pub Sections : Type 0
Sections = Section → List (Text × Value)

pub data Overrides : Type 0 where
  absent not_object : Overrides
  object : List (Text × Value) → Overrides

pub record Manifest : Type 0 where
  pub has_workspaces : Bool
  pub has_bundled : Bool
  pub overrides : Overrides
  pub sections : Sections

-- An entry of `packages`; a field that is no string is none.
pub record Entry : Type 0 where
  pub is_link : Bool
  pub version : Option Text
  pub resolved : Option Text
  pub integrity : Option Text

-- The entry of the path `''`, with its JSON.
pub record Root : Type 0 where
  pub json : Text
  pub sections : Sections

pub record Lock : Type 0 where
  pub lockfile_version : ℕ
  pub root : Option Root
  pub packages : List (Text × Entry)  -- the other paths

pub record Json : Type 0 where
  pub byte_length : Text → ℕ
  pub manifest_of : Text → Option Manifest
  pub lock_of : Text → Option Lock

pub record Semver : Type 0 where
  pub valid : Text → Option Text
  pub valid_range : Text → Bool
  pub satisfies : Text → Text → Bool

abbrev pub is_one_of : String → ℕ → Bool
is_one_of s u = any (λ c. nat_beq c u) (lit s)

-- `/^[0-9v~^<>=*|. xX+-]+$/`
abbrev pub is_range : Text → Bool
is_range t = not (t == []) && all (λ u. is_digit u || is_one_of "v~^<>=*|. xX+-" u) t

abbrev pub is_letter : ℕ → Bool
is_letter u = is_lower u || is_upper u

abbrev pub is_path : Text → Bool
is_path t = not (t == []) && all (λ u. is_letter u || is_digit u || is_one_of "_@./-" u) t

abbrev pub is_base64 : Text → Bool
is_base64 t = not (t == []) && all (λ u. is_letter u || is_digit u || is_one_of "+/=" u) t

-- `/^sha(256|384|512)-[A-Za-z0-9+/=]+$/`
abbrev pub is_integrity : Text → Bool
is_integrity t =
    any (λ p. starts_with t (lit p)) ("sha256-" ∷ "sha384-" ∷ "sha512-" ∷ [])
    && is_base64 (drop 7 t)

abbrev is_name_unit : ℕ → Bool
is_name_unit u = is_lower u || is_digit u || is_one_of "_.-" u

abbrev is_plain_name : Text → Bool
is_plain_name t = not (t == []) && all is_name_unit t

-- The text after the first slash.
abbrev after_slash : Text → Option Text
after_slash [] = none
after_slash (c ∷ t) = if nat_beq c b'/' then some t else after_slash t

abbrev before_slash : Text → Text
before_slash [] = []
before_slash (c ∷ t) = if nat_beq c b'/' then [] else c ∷ before_slash t

-- `/^(?:@[a-z0-9_.-]+\/)?[a-z0-9_.-]+$/`
abbrev pub is_package_name : Text → Bool
is_package_name [] = false
is_package_name (c ∷ t) =
    if nat_beq c b'@'
    then is_plain_name (before_slash t) && is_plain_name (or_else (after_slash t) [])
    else is_plain_name (c ∷ t)

abbrev last_part : Text → Text → Text
last_part [] best = best
last_part (c ∷ t) best =
    last_part t (if starts_with (c ∷ t) (lit "node_modules/") then drop 13 (c ∷ t) else best)

-- `path.split('node_modules/').at(-1)`
unfoldable pub package_name : Text → Text
package_name path = last_part path path
