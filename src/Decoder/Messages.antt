-- ===== src/Decoder/Messages.antt =====
-- What `interpret` makes of the messages that a server writes, one module for each family.
pub mod Ticks
pub mod Account
pub mod Greeks
pub mod Lists
pub mod Reads
pub mod History
pub mod Faults
pub mod Conditions
pub mod OrderBlocks
pub mod OpenOrder
