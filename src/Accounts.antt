-- ===== src/Accounts.antt =====
-- Accounts: apps/backend/src/onboarding (users.repository.ts, token-cipher.ts).
pub mod Db
pub mod Users
pub mod Sessions
pub mod Notifications
pub mod Reservations
pub mod Erasure
pub mod Cipher
pub mod Tokens
pub mod Unique
pub mod Steps
pub mod Checked
pub mod Reach
pub mod Accepted
pub mod Forgets
pub mod Retention
pub mod Access
pub mod Secrets
pub mod Saved
pub mod Tests
