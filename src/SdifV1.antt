-- ===== src/SdifV1.antt =====
-- drivers/fsdif: the SD/MMC host driver that drives the SDIF controller by itself, through the
-- register layer FSdif.
pub mod Softc
pub mod Command
pub mod Finish
pub mod Poll
pub mod Request
pub mod Host
pub mod Card
pub mod Attach
mod Tests
