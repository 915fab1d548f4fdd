-- ===== src/Tests.antt =====
-- Runs of the modelled code on concrete inputs, and the theorems at them.
pub mod Migrations
pub mod Rooms
pub mod Bodies
pub mod Process
mod Libraries
pub mod Sorting
pub mod Tables
pub mod Basics
pub mod Accounts
pub mod Tasks
pub mod Live
pub mod Histories
mod Routes
mod Listings
mod Strangers
