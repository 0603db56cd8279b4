-- ===== src/Access/Admin.antt =====
-- onboarding/admin.guard.ts: the guard of the admin routes.
use swkoo_kr.Prelude.{
  ℕ, Bool, true, false, Option, none, some, List, [], ◌∷◌, ◌++◌, if◌then◌else◌, ◌==◌, any, map,
  Result, ok, err,
}
use swkoo_kr.Prelude.Texts.{Text, lit, text_eq, to_lower}
use swkoo_kr.Accounts.Db.{Db, AuditLogInsert}
use swkoo_kr.Accounts.Users.{audit}
pub mod Denied

pub data Forbidden : Type 0 where
  not_authenticated not_admin : Forbidden

abbrev pub denial : Text → Text → AuditLogInsert
denial login path = record {
  actor = login;
  action = lit "ADMIN_DENIED";
  target = some path;
  reason = some (lit "NOT_ADMIN");
  meta_json = none;
}

-- `adminsLc.includes(login.toLowerCase())`, the guard's own comparison
abbrev pub is_listed : List Text → Text → Bool
is_listed admin_logins login = any (λ s. s == to_lower login) (map (λ s. to_lower s) admin_logins)

-- `canActivate`, for a request with the user's login, if any, and a path.
unfoldable pub can_activate :
    ℕ → List Text → Option Text → Text → Db → Db × Result Forbidden (Unit {0})
unfolding audit
can_activate now admin_logins none path db = (db, err not_authenticated)
can_activate now admin_logins (some login) path db =
    if is_listed admin_logins login
    then (db, ok tt)
    else (audit now (denial login path) db, err not_admin)
