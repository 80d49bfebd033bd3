-- ===== src/Payment.antt =====
-- Payments through ZarinPal (backend/internal/payment).
pub mod Model
pub mod Errors
pub mod Repository
pub mod Settlement
pub mod Reconciliation
pub mod Gateway
pub mod Json
pub mod Zarinpal
pub mod Handler
