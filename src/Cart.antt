-- ===== src/Cart.antt =====
-- Carts (backend/internal/cart).
pub mod Model
pub mod Repository
pub mod Merge
