-- ===== src/Order.antt =====
-- Orders (backend/internal/order): the status machine, shipping fees, the checkout input, and the
-- transactions that create, advance, cancel and expire orders.
pub mod Model
pub mod Shipping
pub mod Input
pub mod Inventory
pub mod Errors
pub mod Checkout
pub mod Cancel
pub mod Conservation
