-- ===== src/Deploy.antt =====
-- The deployment service of apps/backend/src/deploy.
pub mod Names
pub mod Image
pub mod Storage
pub mod Preview
pub mod Stages
pub mod Source
pub mod Current
pub mod Handler
pub mod Admission
pub mod Register
pub mod Unregister
pub mod Recovery
pub mod Cleanup
pub mod Notify
pub mod Tests
