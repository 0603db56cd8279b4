-- ===== src/Auth.antt =====
-- Sign-in, the tokens of GitHub and the sessions of apps/backend/src/onboarding/auth.service.ts.
pub mod SignIn
pub mod Tokens
pub mod Session
pub mod Fresh
pub mod Guarded
mod Tests
