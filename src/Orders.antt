-- ===== src/Orders.antt =====
-- modules/orders: delivery of digital purchases, downloads and the buyers' own purchases.
pub mod Delivery
pub mod Downloads
pub mod Limits
pub mod Purchases
pub mod Progress
pub mod Rules
pub mod Panel
pub mod Chart
pub mod Stats
pub mod Days
