-- ===== src/Security.antt =====
-- B/security: what may reach the service from outside.
pub mod Auth
pub mod Examples
pub mod Policies
pub mod Webhook
