-- ===== src/Governance.antt =====
-- backend/src/backend/governance, and the in-memory stores behind its contracts in
-- backend/src/backend/persistence/testing/governance.py: budgets, models, providers and metering.
pub mod Budget
pub mod Catalog
pub mod Health
pub mod Metering
pub mod Routing
pub mod Examples
pub mod SharedBudget
pub mod SharedHealth
