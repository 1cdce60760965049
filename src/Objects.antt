-- ===== src/Objects.antt =====
-- The object handlers of src/handlers/object.rs.
pub mod Disk
pub mod Env
pub mod Flow
pub mod Ensures
pub mod Names
pub mod Resolve
pub mod Read
pub mod Refused
pub mod Served
pub mod Cached
pub mod Stored
pub mod Isolated
pub mod History
pub mod Write
pub mod Delete
pub mod Gone
pub mod MemDisk
pub mod MemCache
mod Tests
