-- ===== src/Pty.antt =====
-- The PTY-over-WebSocket server shared by the cloud worker and the desktop agent
-- (packages/pty-core and the pty-protocol of packages/shared).
pub mod Messages
pub mod Gateway
pub mod Exits
pub mod Access
pub mod Refusal
pub mod Token
pub mod Spawn
pub mod Root
pub mod Flow
mod Tests
