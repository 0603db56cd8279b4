-- ===== src/Domain.antt =====
-- Custom domains: apps/backend/src/domain.
pub mod Validation
pub mod Repository
pub mod Dns
pub mod CertCache
pub mod Kustomization
pub mod Service
mod Tests
