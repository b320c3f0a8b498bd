-- ===== src/Agent.antt =====
-- The agent: internal/transport (which connection is used), internal/poller (the tick and the self test) and
-- internal/agentstate (the snapshot for the menu).
pub mod State
pub mod Config
pub mod Log
pub mod Interface
pub mod Setup
pub mod Failover
pub mod Transport
pub mod Poller
mod Tests
