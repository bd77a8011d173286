-- ===== src/Service.antt =====
-- `AgentService` of crates/agent-core/src/service.rs.
pub mod Lifecycle
pub mod Logs
pub mod Rootfs
pub mod Bases
pub mod Envs
pub mod Start
pub mod Guards
pub mod Invariant
pub mod Sessions
pub mod Exports
pub mod Handle
