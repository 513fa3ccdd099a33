-- ===== src/Warehouse.antt =====
-- internal/warehouse: single-owner inventory with reservations.
pub mod Items
pub mod Stock
pub mod Inventory
pub mod Shipper
pub mod Server
mod Tests
