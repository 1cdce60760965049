-- ===== src/Listing.antt =====
-- ListObjects: src/handlers/list.rs.
pub mod Tree
pub mod Walk
pub mod Reference
pub mod Ends
pub mod Refinement
pub mod Order
pub mod Page
pub mod Truncation
pub mod Client
pub mod Objects
mod Tests
