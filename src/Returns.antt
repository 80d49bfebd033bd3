-- ===== src/Returns.antt =====
-- Return requests (backend/internal/return).
pub mod Handler
pub mod Model
pub mod Repository
