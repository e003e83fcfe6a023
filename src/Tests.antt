-- ===== src/Tests.antt =====
-- Tests: concrete runs of the definitions, and of the theorems.
pub mod Samples
pub mod Pages
pub mod Listing
pub mod Polling
pub mod Opening
pub mod Scrolling
pub mod Showing
pub mod Requesting
pub mod Chrome
pub mod Adding
