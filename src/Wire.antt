-- ===== src/Wire.antt =====
-- The wire format (utils.go): decimal numbers, message frames, fields.
pub mod Decimal
pub mod Float
pub mod Encode
pub mod Frame
