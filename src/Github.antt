-- ===== src/Github.antt =====
-- The client of the GitHub App, apps/backend/src/github-app/github-app.service.ts.
pub mod Commit
pub mod Repositories
pub mod Tests
