-- ===== src/Governance/Examples.antt =====
-- The budget ledger, the routing and the metering on small inputs.
pub mod Routes
pub mod Shared
pub mod Spending
pub mod Usage
