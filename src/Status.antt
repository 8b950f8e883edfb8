-- ===== src/Status.antt =====
-- The states that the database stores as text (src/models/projects.rs), one module for each
-- `enum`; the methods keep their names.
pub mod Project
pub mod Version
pub mod Side
pub mod Monetization
pub mod Dependency
pub mod File
pub mod Collection
pub mod Storage
pub mod Visibility
