-- ===== src/Domain/Service.antt =====
-- domain/domain.service.ts. A request is a function from what the outside answers during it
-- (`World`) and the state to the new state and the response. The parts are in the modules below.
pub mod State
pub mod Checks
pub mod Info
pub mod Response
pub mod Register
pub mod Verify
pub mod Delete
pub mod Sound
pub mod Reach
pub mod Proof
pub mod Removal
pub mod Cooldown
pub mod Outcome
