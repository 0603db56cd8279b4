-- ===== src/Deploy/Preview/Deployable.antt =====
-- When a repository can be deployed, said without the list of checks.
use swkoo_kr.Prelude.{
  ◌≡◌, refl, ◌∙◌, ap, ap₂, Bool, true, false, not, ◌&&◌, ◌||◌, Option, none, some, List, [], ◌∷◌,
  ◌++◌, ◌==◌, any, find, inl, inr, Bool-cases, Result, ok, err, arith,
}
use swkoo_kr.Prelude.Texts.{Text, lit, text_eq}
use swkoo_kr.Github.Commit.{HttpFailure}
use swkoo_kr.Deploy.Storage.{StorageProfile}
use swkoo_kr.Deploy.Preview.{
  CheckKey, CheckStatus, check, or_fail, Package, PreviewCheck, Probes, StackPreview, has_next,
  is_sqlite, has_env_url, is_fail, read_package, lockfile_checks, read_schema, schema_storage,
  schema_checks, package_of, all_checks, classified, preview_of, detect_stack,
}

abbrev pub is_main : Result HttpFailure Text → Bool
is_main (ok branch) = branch == lit "main"
is_main (err e) = false

-- A value that is falsy passes for a package.
abbrev pub is_next_package : Result HttpFailure (Option Package) → Bool
is_next_package (ok none) = true
is_next_package (ok (some p)) = has_next p
is_next_package (err e) = false

abbrev pub has_usable_schema : Result HttpFailure Text → Bool
has_usable_schema (err e) = true
has_usable_schema (ok []) = true
has_usable_schema (ok (c ∷ s)) = not (is_sqlite (c ∷ s)) || has_env_url (c ∷ s)

-- The default branch is `main`, package.json depends on Next.js, and a schema for SQLite takes its
-- URL from the environment.
unfoldable pub is_deployable : Probes → Bool
is_deployable p = is_main p.branch && is_next_package p.pkg && has_usable_schema p.schema

abbrev pub is_nextjs : StackPreview → Bool
is_nextjs (StackPreview.nextjs name port engine checks profile) = true
is_nextjs (StackPreview.unsupported key checks) = false

any-append :
    (xs ys : List PreviewCheck) → any is_fail (xs ++ ys) ≡ (any is_fail xs || any is_fail ys)
any-append [] ys = refl
any-append (x ∷ xs) ys = ground (arith, any-append xs ys)

find-any :
    (pkg : Option Package) (checks : List PreviewCheck) (profile : Option StorageProfile)
    (xs : List PreviewCheck)
    → is_nextjs (classified pkg checks profile (find is_fail xs)) ≡ not (any is_fail xs)
find-any pkg checks profile [] = refl
find-any pkg checks profile (x ∷ xs) = elim (Bool-cases (is_fail x)) [
  | inl t ↦ rw t refl
  | inr f ↦ rw f (find-any pkg checks profile xs)
]

package_fails :
    (r : Result HttpFailure (Option Package))
    → any is_fail (read_package r) ≡ not (is_next_package r)
unfolding read_package
package_fails (ok none) = refl
package_fails (ok (some p)) = ground arith
package_fails (err e) = refl

lockfile_fails : (r : Result HttpFailure (Unit {0})) → any is_fail (lockfile_checks r) ≡ false
unfolding lockfile_checks
lockfile_fails (ok found) = refl
lockfile_fails (err e) = ground arith

schema_fails :
    (pkg : Option Package) (migrations : Result HttpFailure (List Bool))
    (schema : Result HttpFailure Text)
    → any is_fail (schema_checks pkg migrations schema).0 ≡ not (has_usable_schema schema)
unfolding schema_checks
schema_fails pkg migrations (err e) = refl
schema_fails pkg migrations (ok []) = refl
schema_fails pkg migrations (ok (c ∷ s)) = storage_fails (c ∷ s)
  where
    storage_fails :
        (schema : Text)
        → any is_fail (schema_storage pkg migrations schema).0
          ≡ not (not (is_sqlite schema) || has_env_url schema)
    storage_fails schema = ground arith

tests : (b m k : Bool) → not (not b || (not m || not k)) ≡ (b && m && k)
tests true true true = refl
tests true true false = refl
tests true false k = refl
tests false m k = refl

or_fail-is_fail : (key : CheckKey) (b : Bool) → is_fail (check key (or_fail b)) ≡ not b
or_fail-is_fail key true = refl
or_fail-is_fail key false = refl

rest_fails :
    (p : Probes)
    → any is_fail (
        read_package p.pkg
        ++ (lockfile_checks p.lockfile
            ++ (check CheckKey.repo_casing CheckStatus.pass ∷ (read_schema p).0)))
      ≡ (not (is_next_package p.pkg) || not (has_usable_schema p.schema))
rest_fails p =
    any-append (read_package p.pkg) _
    ∙ ap₂ ◌||◌ (package_fails p.pkg) (
        any-append (lockfile_checks p.lockfile) _
        ∙ ap₂ ◌||◌ (lockfile_fails p.lockfile)
            (schema_fails (package_of p.pkg) p.migrations p.schema))

checks_fail :
    (p : Probes) (branch : Text)
    → any is_fail (all_checks p branch (read_schema p).0) ≡ (
        not (branch == lit "main")
        || (not (is_next_package p.pkg) || not (has_usable_schema p.schema)))
checks_fail p branch =
    ap₂ ◌||◌ (or_fail-is_fail CheckKey.default_branch (branch == lit "main")) (rest_fails p)

-- A repository is classified as a Next.js application exactly where its default branch is `main`,
-- its package.json can be read and depends on Next.js or holds a falsy value, and its schema, if
-- it is one for SQLite, takes its URL from the environment.
pub detect_stack-is_deployable : (p : Probes) → is_nextjs (detect_stack p) ≡ is_deployable p
unfolding detect_stack is_deployable
detect_stack-is_deployable p = branches p.branch
  where
    branches :
        (b : Result HttpFailure Text)
        → is_nextjs (preview_of p b)
          ≡ (is_main b && is_next_package p.pkg && has_usable_schema p.schema)
    branches (err e) = refl
    branches (ok branch) =
        find-any (package_of p.pkg) checks (read_schema p).1 checks
        ∙ ap not fails
        ∙ tests (branch == lit "main") (is_next_package p.pkg) (has_usable_schema p.schema)
      where
        checks : List PreviewCheck
        checks = all_checks p branch (read_schema p).0

        fails : any is_fail checks ≡ (
            not (branch == lit "main")
            || (not (is_next_package p.pkg) || not (has_usable_schema p.schema)))
        fails = checks_fail p branch
