-- ===== src/Github.antt =====
-- backend/src/backend/integrations/github: the checks against GitHub before a pull request.
pub mod Json
pub mod BranchProtection
pub mod Permissions
pub mod Drift
pub mod Examples
