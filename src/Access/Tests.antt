-- ===== src/Access/Tests.antt =====
-- Visibility, the guard and subdomains at concrete inputs.
use swkoo_kr.Prelude.{
  ◌≡◌, ◌≤◌, ◌↔◌, refl, true, false, none, some, List, [], ◌∷◌, ◌++◌, ◌++◌, ◌==◌, any, length, ok,
  err, if◌then◌else◌, not,
}
use swkoo_kr.Prelude.Texts.{
  Text, lit, text_eq, text_beq, to_lower, lower_unit, starts_with, ends_with,
}
use swkoo_kr.Accounts.Users.{audit}
use swkoo_kr.Accounts.Reach.{empty_db}
use swkoo_kr.Domain.Validation.{label_ok}
use swkoo_kr.Access.Scope.{
  is_admin, is_mine, viewer_scope_for, extract_owner_login, is_visible_to_scope, prefix,
  ViewerScope,
}
use swkoo_kr.Access.Scope.Visible.{user_namespace-is_visible}
use swkoo_kr.Access.Admin.{can_activate, Forbidden}
use swkoo_kr.Access.Admin.Denied.{recorded, can_activate-all_scope}
use swkoo_kr.Access.Subdomain.{validate_subdomain_format, is_format, reserved, SubdomainReason}
use swkoo_kr.Access.Subdomain.Label.{validate_subdomain_format-label_ok}

run : Unit {0}
unfolding lit text_beq to_lower lower_unit starts_with ends_with audit label_ok viewer_scope_for
    extract_owner_login is_visible_to_scope can_activate validate_subdomain_format is_format
    reserved
run = tt

abbrev admins : List Text
admins = lit "Root" ∷ []

tests :
    (validate_subdomain_format (lit "ab") ≡ err SubdomainReason.format_reason)
    × (validate_subdomain_format (lit "abc-") ≡ err SubdomainReason.format_reason)
    × (validate_subdomain_format (lit "admin") ≡ err SubdomainReason.reserved_reason)
    × ((can_activate 1 admins (some (lit "root")) (lit "/admin") empty_db).1 ≡ ok tt)
    × ((can_activate 1 admins none (lit "/admin") empty_db).1 ≡ err Forbidden.not_authenticated)
unfolding run
tests = (refl, refl, refl, refl, refl)

user_namespace-is_visible_example :
    (is_visible_to_scope (some (prefix ++ lit "Ann")) (viewer_scope_for none admins none) ≡ false)
    × (is_visible_to_scope
          (some (prefix ++ lit "Ann"))
          (viewer_scope_for (some (lit "ANN")) admins none)
        ≡ (if is_admin admins (lit "ANN")
            then not (is_mine none)
            else to_lower (lit "Ann") == to_lower (lit "ANN")))
user_namespace-is_visible_example = user_namespace-is_visible (lit "Ann") (lit "ANN") admins none

can_activate-all_scope_example :
    (((can_activate 1 admins (some (lit "bob")) (lit "/admin") empty_db).1 ≡ ok tt)
      ↔ (viewer_scope_for (some (lit "bob")) admins none ≡ ViewerScope.all_scope))
    × ((can_activate 1 admins (some (lit "bob")) (lit "/admin") empty_db).0 ≡ record empty_db {
      audit_log =
          []
          ++ recorded 1
              (some (lit "bob"))
              (lit "/admin")
              (viewer_scope_for (some (lit "bob")) admins none);
    })
can_activate-all_scope_example =
    can_activate-all_scope 1 admins (some (lit "bob")) (lit "/admin") empty_db

validate_subdomain_format-label_ok_example :
    (3 ≤ length (lit "my-app"))
    × (length (lit "my-app") ≤ 63)
    × (label_ok (lit "my-app") ≡ true)
    × (any (λ r. r == lit "my-app") reserved ≡ false)
unfolding run
validate_subdomain_format-label_ok_example = validate_subdomain_format-label_ok (lit "my-app") refl
