-- ===== src/Lifecycle.antt =====
-- The lifecycle of a quote as one system of steps on the tables, and the services of
-- apps/policies/services.py and apps/payments/services.py as runs of it.
pub mod Steps
pub mod Invariant
pub mod Moves
pub mod Sound
pub mod Refinement
pub mod Settling
pub mod Reachable
pub mod Retry
pub mod Reading
pub mod Dispatch
pub mod Locks
pub mod Selected
pub mod Outcomes
pub mod Bounded
pub mod Purchase
pub mod Edited
pub mod Thinning
pub mod Deleting
pub mod Kept
pub mod Between
pub mod Racing
pub mod Keys
pub mod Conforming
