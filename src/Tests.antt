-- ===== src/Tests.antt =====
-- Runs of the program on a small catalogue.
mod World
mod Pricing
pub mod Quotes
pub mod Requests
mod Extra
mod Flows
mod More
mod Kept
mod Tables
