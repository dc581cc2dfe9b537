-- ===== src/Xmac.antt =====
-- drivers/fxmac/phytium_xmac.c: the first version of the XMAC Ethernet driver.
pub mod Softc
pub mod Rx
pub mod Tx
pub mod Mdio
pub mod Media
pub mod If
pub mod Attach
pub mod Tests
pub mod TxTests
pub mod IfTests
mod MacTests
pub mod AttachTests
