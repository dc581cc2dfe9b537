-- ===== src/Xmac/Tx.antt =====
-- drivers/fxmac/phytium_xmac.c: the transmission of packets.
pub mod Chain
pub mod Segs
pub mod Ring
pub mod Output
pub mod Words
pub mod Keep
pub mod Skip
pub mod Clean
pub mod Drain
pub mod Write
pub mod Send
pub mod Sendable
pub mod Pump
pub mod Start
pub mod Run
pub mod Queue
