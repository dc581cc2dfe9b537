-- ===== src/SdifV2/Tests.antt =====
-- Runs of the SDIF v2 model, and the theorems at concrete inputs. The headers' numbers are those of
-- FreeBSD's mmcreg.h and of the Phytium FSdifMsg layer.
mod Sample
mod Requests
mod Settings
