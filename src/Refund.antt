-- ===== src/Refund.antt =====
-- Refunds (backend/internal/refund).
pub mod Model
pub mod Repository
pub mod Handler
pub mod Requests
