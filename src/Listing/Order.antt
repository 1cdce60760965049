-- ===== src/Listing/Order.antt =====
-- The order in which src/handlers/list.rs emits keys and common prefixes.
pub mod Ascending
pub mod Keys
pub mod Tree
pub mod Items
pub mod Groups
pub mod Resume
pub mod Pages
