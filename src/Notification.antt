-- ===== src/Notification.antt =====
-- The notification outbox (backend/internal/notification).
pub mod Model
pub mod Outbox
pub mod Queue
pub mod Worker
