-- ===== src/Data.antt =====
-- The data that requests and callbacks carry.
pub mod Contract
pub mod Market
pub mod Condition
pub mod Order
pub mod Scanner
