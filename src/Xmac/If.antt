-- ===== src/Xmac/If.antt =====
-- drivers/fxmac/phytium_xmac.c: the network interface, which joins the receive side, the transmit side
-- and the link.
pub mod Hash
pub mod Driver
pub mod Filter
pub mod Hashes
pub mod Accept
pub mod Clear
pub mod Start
pub mod Intr
pub mod Ioctl
pub mod Callbacks
pub mod Held
pub mod TxCleared
pub mod RxCleared
pub mod Sound
pub mod Stopped
pub mod Opened
pub mod Relinked
pub mod Control
pub mod Lifecycle
pub mod Flags
pub mod Caps
pub mod Mac
pub mod Moved
