-- ===== src/Listing/Objects.antt =====
-- The keys that a page of src/handlers/list.rs shows, and the files that they stand for.
pub mod Leads
pub mod Shown
mod Tests
