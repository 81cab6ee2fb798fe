-- ===== src/Notification.antt =====
-- Notifications: the outbox of events and their delivery.
pub mod Schema
pub mod Delivery
pub mod Channel
pub mod Dispatch
pub mod Outbox
pub mod Schedule
mod Tests
