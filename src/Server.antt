-- ===== src/Server.antt =====
-- The API server (server/src): a modular monolith over one database.
pub mod Db
pub mod Execute
pub mod Sessions
pub mod Reconciler
pub mod Lifecycle
pub mod Quota
pub mod Desktop
pub mod Projects
pub mod Auth
pub mod Jobs
pub mod SimpleGit
pub mod GitProtocol
pub mod Git
pub mod Http
pub mod Guard
mod Tests
