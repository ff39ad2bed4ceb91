-- ===== src/Files.antt =====
-- The project file store (server/src/files) and the path functions of Node that it uses.
pub mod Paths
pub mod SafePath
pub mod Disk
pub mod Store
pub mod Tree
pub mod Keys
pub mod Manifest
mod Tests
