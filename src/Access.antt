-- ===== src/Access.antt =====
-- Who may see and do what: apps/backend/src/onboarding (viewer-scope.ts, admin.guard.ts) and the
-- form of subdomains, apps/backend/src/deploy/subdomain.ts.
pub mod Scope
pub mod Admin
pub mod Subdomain
mod Tests
