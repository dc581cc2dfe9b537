-- ===== src/SdifV2/Host/Ivars.antt =====
-- Instance variables: what is written is read back, and nothing else changes.
use phytium_sdk.Prelude.{ℕ, ◌≡◌, ◌≢◌, ◌↔◌, Bool, true, false, none, some, arith}
use phytium_sdk.SdifV2.Softc.{MmcHost, MmcReg}
use phytium_sdk.SdifV2.Host.{
  Ivar, ivar_bus_mode, ivar_f_min, ivar_f_max, ivar_host_ocr, ivar_caps, ivar_max_data,
  ivar_max_busy_timeout, ivar_other, read_ivar, write_ivar,
}

-- the variables that the bus may write
abbrev pub writable : Ivar → Bool
writable ivar_f_min = false
writable ivar_f_max = false
writable ivar_host_ocr = false
writable ivar_caps = false
writable ivar_max_data = false
writable ivar_max_busy_timeout = false
writable ivar_other = false
writable _ = true

-- A write is refused with EINVAL exactly at the variables that are not writable, those that the
-- driver names as read-only and the unknown ones.
pub write_ivar-none_iff :
    (i : Ivar) (v : ℕ) (h : MmcHost) → (write_ivar i v h ≡ none) ↔ (writable i ≡ false)
unfolding write_ivar
write_ivar-none_iff ivar_bus_mode v h = (λ e. ground arith, λ e. ground arith)
write_ivar-none_iff _ v h = (λ e. ground arith, λ e. ground arith)

-- After a write that is not refused, the variable reads back the value written, and every other
-- variable reads as before.
pub read_ivar-write_ivar :
    (reg : MmcReg) (i : Ivar) (v : ℕ) (h : MmcHost) {g : MmcHost}
    → write_ivar i v h ≡ some g
    → (read_ivar reg i g ≡ some v) × ((j : Ivar) → j ≢ i → read_ivar reg j g ≡ read_ivar reg j h)
unfolding read_ivar write_ivar
read_ivar-write_ivar reg ivar_bus_mode v h e = (ground arith, λ j n. ground arith)
read_ivar-write_ivar reg _ v h e = (ground arith, λ j n. ground arith)
