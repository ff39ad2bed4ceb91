-- ===== src/Sync.antt =====
-- The delta sync of a project: the protocol (packages/shared/src/sync-protocol.ts), the server's end
-- (server/src/sync/sync.gateway.ts) and the agent's (services/cli-agent/src).
pub mod Manifest
pub mod Gateway
pub mod Client
pub mod Upgrade
pub mod Watch
pub mod Serial
pub mod Round
pub mod Stored
mod Tests
