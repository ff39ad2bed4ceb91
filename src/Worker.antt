-- ===== src/Worker.antt =====
-- The execution worker (services/execution-worker) and the events it shares with the server
-- (packages/shared/src/exec-events.ts, queue.ts).
pub mod Events
pub mod Registry
pub mod Jobs
pub mod Containers
pub mod Gateway
pub mod Held
mod Tests
