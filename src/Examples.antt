-- ===== src/Examples.antt =====
-- Concrete runs: every theorem of the results at one input where its hypotheses hold.
pub mod Values
pub mod Framing
pub mod Decoding
pub mod Sessions
pub mod Handshakes
pub mod Goroutines
pub mod PlacedOrders
pub mod Orders
