-- ===== src/SdifV1/Tests.antt =====
-- The theorems on drivers/fsdif at concrete inputs.
mod Sample
mod Requests
mod Settings
