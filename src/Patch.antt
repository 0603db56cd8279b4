-- ===== src/Patch.antt =====
-- The policy of apps/backend/src/deploy/security-patch.policy.ts on what a security patch may change.
pub mod Lockfile
pub mod Input
pub mod Changes
pub mod Upgrades
mod Tests
