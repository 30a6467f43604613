-- ===== src/Runtime.antt =====
-- backend/src/backend/runtime: the workflow that takes one ticket from planning to a pull request.
pub mod Models
pub mod Context
pub mod Planner
pub mod Repository
pub mod Workflow
pub mod Examples
