-- ===== src/XmacV2.antt =====
-- drivers/fxmac_v2_0: the Ethernet driver that configures the controller by messages to its firmware,
-- through the FXmacMsg layer.
pub mod Driver
pub mod Rings
pub mod Filter
pub mod Start
pub mod Intr
pub mod Ioctl
pub mod Callbacks
pub mod Ready
pub mod Served
pub mod Hashed
pub mod Stopped
pub mod Control
pub mod Lifecycle
pub mod Attach
mod Tests
