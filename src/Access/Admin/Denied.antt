-- ===== src/Access/Admin/Denied.antt =====
-- The guard lets in whom the observatory shows everything, and records what it turns away.
use swkoo_kr.Prelude.{
  ℕ, ◌≡◌, ◌↔◌, refl, sym, append-nil, ap, ◌||◌, Option, none, some, List, [], ◌∷◌, ◌++◌, inl, inr,
  Bool-cases, ◌==◌, ok,
}
use swkoo_kr.Prelude.Texts.{Text, lit, text_eq, to_lower}
use swkoo_kr.Accounts.Db.{Db, AuditRow}
use swkoo_kr.Accounts.Users.{audit}
use swkoo_kr.Access.Scope.{ViewerScope, is_admin, viewer_scope_for, all_scope}
use swkoo_kr.Access.Admin.{can_activate, is_listed}

-- The guard's comparison and the scope's are one.
is_listed-is_admin :
    (admin_logins : List Text) (login : Text)
    → is_listed admin_logins login ≡ is_admin admin_logins login
is_listed-is_admin [] login = refl
is_listed-is_admin (s ∷ admin_logins) login =
    ap (λ b. (to_lower s == to_lower login) || b) (is_listed-is_admin admin_logins login)

-- What the guard adds to the audit log: nothing for a request whose scope is everything or that has
-- no user, and otherwise one row with the user, the path, the time and the reason.
abbrev pub recorded : ℕ → Option Text → Text → ViewerScope → List AuditRow
recorded now user path ViewerScope.all_scope = []
recorded now none path scope = []
recorded now (some login) path scope =
    record {
      at = now;
      entry = record {
        actor = login;
        action = lit "ADMIN_DENIED";
        target = some path;
        reason = some (lit "NOT_ADMIN");
        meta_json = none;
      };
    }
    ∷ []

-- A request passes the guard just if the scope of its user, with no query, is everything. The tables
-- stay as they are but for the audit log, to which a signed-in user's request that is turned away
-- adds one row, with the login, the path and the reason; a request without a user adds none.
pub can_activate-all_scope :
    (now : ℕ) (admin_logins : List Text) (user : Option Text) (path : Text) (db : Db)
    → (((can_activate now admin_logins user path db).1 ≡ ok tt)
        ↔ (viewer_scope_for user admin_logins none ≡ all_scope))
      × ((can_activate now admin_logins user path db).0 ≡ record db {
        audit_log =
            db.audit_log ++ recorded now user path (viewer_scope_for user admin_logins none);
      })
unfolding can_activate viewer_scope_for audit
can_activate-all_scope now admin_logins none path db = (
  (λ e. absurd (cc), λ e. absurd (cc)),
  ap (λ l. record db { audit_log = l }) (sym (append-nil db.audit_log)),
)
can_activate-all_scope now admin_logins (some login) path db =
    elim (Bool-cases (is_admin admin_logins login)) [
      | inl e ↦
          rw (is_listed-is_admin admin_logins login, e)
            (
              (λ x. refl, λ x. refl),
              ap (λ l. record db { audit_log = l }) (sym (append-nil db.audit_log)),
            )
      | inr e ↦
          rw (is_listed-is_admin admin_logins login, e) ((λ x. absurd (cc), λ x. absurd (cc)), refl)
    ]
