-- ===== src/Access/Scope/Visible.antt =====
-- Which namespaces a viewer sees.
use swkoo_kr.Prelude.{
  ◌≡◌, refl, true, false, not, Option, none, some, List, [], ◌∷◌, ◌++◌, if◌then◌else◌, ◌==◌, inl,
  inr, Bool-cases,
}
use swkoo_kr.Prelude.Texts.{Text, lit, text_eq, to_lower, starts_with}
use swkoo_kr.Access.Scope.{
  is_admin, is_mine, viewer_scope_for, extract_owner_login, is_visible_to_scope, prefix,
  ViewerScope, all_scope, operator, login_scope,
}

-- The namespace of a user is not visible without signing in; an admin sees it unless the query asks
-- for their own scope, and any other viewer just if it is theirs, whatever the letters' case and the
-- query.
pub user_namespace-is_visible :
    (owner login : Text) (admin_logins : List Text) (query : Option Text)
    → (is_visible_to_scope (some (prefix ++ owner)) (viewer_scope_for none admin_logins query)
        ≡ false)
      × (is_visible_to_scope
            (some (prefix ++ owner))
            (viewer_scope_for (some login) admin_logins query)
          ≡ (if is_admin admin_logins login
              then not (is_mine query)
              else to_lower owner == to_lower login))
unfolding viewer_scope_for is_visible_to_scope extract_owner_login lit starts_with
user_namespace-is_visible owner login admin_logins query = (
  refl,
  elim (Bool-cases (is_admin admin_logins login)) [
    | inr e ↦ rw e refl
    | inl e ↦ rw e (elim (Bool-cases (is_mine query)) [ inl m ↦ rw m refl | inr m ↦ rw m refl ])
  ],
)

operator-owner :
    (namespace : Text)
    → starts_with namespace prefix ≡ false
    → extract_owner_login (some namespace) ≡ none
unfolding extract_owner_login
operator-owner [] e = refl
operator-owner (c ∷ namespace) e = rw e refl

-- What is no user's namespace is visible in every scope.
pub operator_namespace-is_visible :
    (namespace : Text) (scope : ViewerScope)
    → starts_with namespace prefix ≡ false
    → is_visible_to_scope (some namespace) scope ≡ true
unfolding is_visible_to_scope
operator_namespace-is_visible namespace all_scope e = refl
operator_namespace-is_visible namespace operator e = rw (operator-owner namespace e) refl
operator_namespace-is_visible namespace (login_scope login) e = rw (operator-owner namespace e) refl
