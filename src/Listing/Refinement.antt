-- ===== src/Listing/Refinement.antt =====
-- The walk of `collect_entries` of src/handlers/list.rs against the reference listing.
pub mod Groups
pub mod Keys
pub mod Names
pub mod Hidden
pub mod Blocks
pub mod Valid
pub mod Follows
pub mod Steps
pub mod Rounds
pub mod Search
pub mod Filter
pub mod Descend
pub mod Root
pub mod Parts
pub mod Roots
pub mod Whole
pub mod Page
