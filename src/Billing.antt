-- ===== src/Billing.antt =====
-- Sandbox billing events and the credits that they grant.
pub mod Schema
pub mod Contract
pub mod Invoice
pub mod Service
pub mod History
pub mod Webhook
mod Tests
