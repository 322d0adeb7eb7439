-- ===== src/Examples.antt =====
-- Runs on concrete inputs: a configuration with two groups, and each theorem applied to it.
pub mod Data
mod Naming
mod Orders
mod Ceiling
mod Serving
mod Cleaning
pub mod Joining
mod Running
pub mod Providing
mod Loading
mod Preparing
mod Selecting
mod Leading
mod Configured
mod Listing
