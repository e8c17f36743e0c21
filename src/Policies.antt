-- ===== src/Policies.antt =====
-- apps/policies: the lifecycle table, the rows, the services and the admin actions.
pub mod StateMachine
pub mod Rows
pub mod Services
pub mod Branches
pub mod Quoting
pub mod History
pub mod Narrative
pub mod Serializers
pub mod Views
pub mod Access
pub mod Requests
pub mod Admin
pub mod AdminForm
pub mod AdminDelete
pub mod Read
pub mod Reading
pub mod Timeline
pub mod Ordering
pub mod Listing
pub mod Paging
