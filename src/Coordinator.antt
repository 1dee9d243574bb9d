-- ===== src/Coordinator.antt =====
-- src/swarm/coordinator.ts: the parts of the coordinator that join the other components.
pub mod Register
pub mod Enforcement
pub mod Pull
pub mod Requests
mod Tests
