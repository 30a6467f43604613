-- ===== src/Operations.antt =====
-- B/operations: the policies by which the service is run.
pub mod Examples
pub mod FlagService
pub mod Flags
pub mod Health
pub mod Observability
pub mod Quality
pub mod Release
pub mod Resilience
pub mod Retention
pub mod Slo
pub mod StatusPage
