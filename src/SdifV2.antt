-- ===== src/SdifV2.antt =====
-- drivers/fsdif_v2_0: the SD/MMC host driver that sends messages to the SDIF v2 firmware.
pub mod Msg
pub mod Ios
pub mod Command
pub mod Softc
pub mod Poll
pub mod Finish
pub mod Request
pub mod Host
pub mod Card
pub mod Attach
mod Tests
