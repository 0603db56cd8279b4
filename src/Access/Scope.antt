-- ===== src/Access/Scope.antt =====
-- onboarding/viewer-scope.ts: the namespaces that a viewer of the observatory sees.
pub mod Visible
use swkoo_kr.Prelude.{
  Bool, true, false, not, ◌||◌, Option, none, some, List, [], ◌∷◌, if◌then◌else◌, ◌==◌, any, drop,
}
use swkoo_kr.Prelude.Texts.{Text, lit, text_eq, to_lower, starts_with}

pub data ViewerScope : Type 0 where
  all_scope operator : ViewerScope
  login_scope : Text → ViewerScope

abbrev pub is_admin : List Text → Text → Bool
is_admin admin_logins login = any (λ s. to_lower s == to_lower login) admin_logins

abbrev pub is_mine : Option Text → Bool
is_mine none = false
is_mine (some q) = q == lit "mine"

-- The request's user is the login that it carries, if any.
unfoldable pub viewer_scope_for : Option Text → List Text → Option Text → ViewerScope
viewer_scope_for none admin_logins raw_scope_query = operator
viewer_scope_for (some login) admin_logins raw_scope_query =
    if is_admin admin_logins login
    then (if is_mine raw_scope_query then operator else all_scope)
    else login_scope (to_lower login)

abbrev pub prefix : Text
prefix = lit "user-"

unfoldable pub extract_owner_login : Option Text → Option Text
extract_owner_login none = none
extract_owner_login (some []) = none
extract_owner_login (some (c ∷ namespace)) =
    if starts_with (c ∷ namespace) prefix then some (to_lower (drop 5 (c ∷ namespace))) else none

-- `owner === null`, and `owner === null || owner === scope.login`
abbrev is_free : Option Text → Bool
is_free none = true
is_free (some owner) = false

abbrev is_own : Text → Option Text → Bool
is_own login none = true
is_own login (some owner) = owner == login

unfoldable pub is_visible_to_scope : Option Text → ViewerScope → Bool
unfolding extract_owner_login
is_visible_to_scope namespace all_scope = true
is_visible_to_scope namespace operator = is_free (extract_owner_login namespace)
is_visible_to_scope namespace (login_scope login) = is_own login (extract_owner_login namespace)
