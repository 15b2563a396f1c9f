-- ===== src/Marketplace/View.antt =====
-- The abstract view of the tokens: what a reader of the database finds under a token's key, its
-- first row that is not deleted, less the row's own key and times.
pub mod Rows
pub mod Step
pub mod Refines
pub mod Trips
pub mod Faults
