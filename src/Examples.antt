-- ===== src/Examples.antt =====
-- The theorems applied to concrete inputs.
pub mod Records
pub mod Polls
pub mod Requests
pub mod Plans
pub mod Uptimes
pub mod Messages
pub mod Discoveries
pub mod Forms
pub mod Downloads
pub mod Listings
pub mod Profiles
pub mod Tables
