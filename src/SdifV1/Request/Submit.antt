-- ===== src/SdifV1/Request/Submit.antt =====
-- What is under way after a request with data has been started.
use phytium_sdk.Prelude.{
  ℕ, ◌+◌, ◌*◌, ◌/◌, ◌%◌, ◌<◌, ◌≡◌, refl, ap, ◌∙◌, ◌⊎◌, Bool, true, false, not, ◌&&◌, some, ◌∷◌,
  arith, returns, ◌>>=◌, bind-eq-returns, Safe-returns, bind-returns, ltb, bit_and, if◌then◌else◌,
}
use phytium_sdk.SdifV2.Command.{truth}
use phytium_sdk.SdifV2.Softc.{MmcCommand, MmcData, MmcReg, Errno, success, err_none}
use phytium_sdk.SdifV2.Finish.{memcpy}
use phytium_sdk.SdifV2.Poll.{polling_card_busy}
use phytium_sdk.SdifV1.Softc.{FsdifReg, Softc, is_pio, sdif_time_out, transfer}
use phytium_sdk.SdifV1.Finish.Order.{IsRunning}
use phytium_sdk.SdifV1.Command.{raw_cmd}
use phytium_sdk.SdifV1.Request.{
  Answers, pre_request, described, prepared, launched, begun, checked, request, armed, submit,
  entered, set_error, unlock, has_data, trans_data,
}
use phytium_sdk.SdifV1.Request.Returns.{CanTransfer, begun-Safe}

-- the transfer goes through the bounce buffer
abbrev pub bounces : MmcReg → MmcData → Softc → Bool
bounces reg d s = not (is_pio s.trans_mode) && truth (d.payload % reg.dma_buf_alignment)

-- the address that the device gets: none for PIO
abbrev pub address : MmcReg → MmcData → Softc → ℕ
address reg d s =
    if is_pio s.trans_mode
    then 0
    else if truth (d.payload % reg.dma_buf_alignment)
    then s.aligned_dma_buf
    else d.payload

-- what `prepared` leaves of the state
pub record IsPrepared (reg : MmcReg) (d : MmcData) (s t : Softc) : Type 0 where
  pub rest : t ≡ record s {
    mem = t.mem;
    dat_pkg = record s.dat_pkg { buf = t.dat_pkg.buf; buf_dma = t.dat_pkg.buf_dma };
  }
  pub buffer :
      s.dat_pkg.buf ≡ d.payload
      → t.dat_pkg.buf ≡ (if bounces reg d s then s.aligned_dma_buf else d.payload)
  pub dma_address : s.dat_pkg.buf_dma ≡ 0 → t.dat_pkg.buf_dma ≡ address reg d s
  pub bytes :
      s.dat_pkg.buf ≡ d.payload
      → truth (bit_and reg.data_write d.flags) ≡ true
      → (i : ℕ) → i < d.len
      → t.mem (t.dat_pkg.buf + i) ≡ s.mem (d.payload + i)

-- after a request with data that was started; `s` is the state after the checks before it
pub record IsSubmitted (f : FsdifReg) (reg : MmcReg) (r : ℕ) (d : MmcData) (s t : Softc)
    : Type 0 where
  pub running : IsRunning r d t
  pub timed : t.timer ≡ true
  pub unlocked : t.locked ≡ false
  pub error_clear : (t.requests r).error ≡ err_none
  pub sent : t.log ≡ transfer s.trans_mode t.cmd_pkg t.dat_pkg ∷ s.log
  pub index : t.cmd_pkg.cmdidx ≡ (s.requests r).opcode
  pub argument : t.cmd_pkg.cmdarg ≡ (s.requests r).arg
  pub word : t.cmd_pkg.rawcmd ≡ raw_cmd f reg s (s.requests r)
  pub covered : (d.len < 512) ⊎ (d.len % 512 ≡ 0) → t.dat_pkg.blksz * t.dat_pkg.blkcnt ≡ d.len
  pub buffer : t.dat_pkg.buf ≡ (if bounces reg d s then s.aligned_dma_buf else d.payload)
  pub dma_address : t.dat_pkg.buf_dma ≡ address reg d s
  pub bytes :
      truth (bit_and reg.data_write d.flags) ≡ true
      → (i : ℕ) → i < d.len
      → t.mem (t.dat_pkg.buf + i) ≡ s.mem (d.payload + i)

-- Whole blocks, or less than one, are covered by the block size and the block count.
block_bytes :
    (len : ℕ)
    → (len < 512) ⊎ (len % 512 ≡ 0)
    → (if ltb len 512 then len else 512) * (if ltb (len / 512) 1 then 1 else len / 512) ≡ len
block_bytes len h = ground arith

module _ (f : FsdifReg) (reg : MmcReg) (a : Answers) where
  prepared-IsPrepared :
      (c : MmcCommand) (d : MmcData) (s : Softc) {o : Errno × Softc}
      → c.transfer ≡ some d
      → a.descriptors_ready ≡ true
      → prepared f reg a c s ≡ returns o
      → (o.0 ≡ success) × IsPrepared reg d s o.1
  unfolding prepared memcpy
  prepared-IsPrepared c d s there ready e = (
    ground arith,
    record {
      rest = ground arith;
      buffer = λ h. ground arith;
      dma_address = λ h. ground arith;
      bytes = λ h w i k. ground arith;
    },
  )

  described-entered :
      (r : ℕ) (d : MmcData) (s : Softc)
      → f.block_size ≡ 512
      → (s.requests r).transfer ≡ some d
      → let u = described f reg ((entered f reg r s).requests r) (entered f reg r s) in
        (((entered f reg r s).requests r).transfer ≡ some d)
        × (u.dat_pkg.buf ≡ d.payload)
        × (u.dat_pkg.buf_dma ≡ 0)
        × (u.cmd_pkg.rawcmd ≡ raw_cmd f reg s (s.requests r))
  unfolding described entered set_error raw_cmd trans_data
  described-entered r d s block there = (ground arith, ground arith, ground arith, ground arith)

  launched-IsSubmitted :
      (r : ℕ) (d : MmcData) (s p : Softc)
      → f.block_size ≡ 512
      → (s.requests r).transfer ≡ some d
      → IsPrepared reg d (described f reg ((entered f reg r s).requests r) (entered f reg r s)) p
      → IsSubmitted f reg r d s (record (submit p) { timer = true; locked = false })
  unfolding described entered set_error submit armed has_data trans_data raw_cmd
  launched-IsSubmitted r d s p block there x =
      let same = x.rest in
      record {
        running = record {
          current = ground (arith, same);
          pending = ground (arith, same);
          data_expected = ground (arith, same, there);
          has_data = ground (arith, same, there);
          no_command = ground (arith, same);
          no_data = ground (arith, same);
        };
        timed = refl;
        unlocked = refl;
        error_clear = ground (arith, same);
        sent = ground (arith, same);
        index = ground (arith, same);
        argument = ground (arith, same);
        word = ground (arith, same);
        covered = λ h. ground (arith, same, block, there, block_bytes d.len h);
        buffer = ground (arith, x.buffer, there);
        dma_address = ground (arith, x.dma_address, there);
        bytes = λ w i k. ground (arith, there, x.bytes (ground (arith, there)) w i k);
      }

  begun-submits :
      (r : ℕ) (d : MmcData) (s : Softc)
      → f.block_size ≡ 512
      → (s.requests r).transfer ≡ some d
      → CanTransfer reg (s.requests r) s
      → a.descriptors_ready ≡ true
      → a.transfer_started ≡ true
      → (p : Softc) × (begun f reg a r s ≡ returns (success, record (submit p) { timer = true }))
        × IsSubmitted f reg r d s (record (submit p) { timer = true; locked = false })
  unfolding begun launched
  begun-submits r d s block there can ready goes =
      let c = (entered f reg r s).requests r in
      let u = described f reg c (entered f reg r s) in
      let (has, placed, blank, word) = described-entered r d s block there in
      let (o, e) = Safe-returns (begun f reg a r s) (begun-Safe f reg a r s can) in
      let (p, ep, rest) = bind-eq-returns (prepared f reg a c u) _ e in
      let (good, x) = prepared-IsPrepared c d u has ready ep in
      (
        p.1,
        bind-returns (prepared f reg a c u) _ ep ∙ ground (arith, good, goes),
        launched-IsSubmitted r d s p.1 block there x,
      )

  -- A request with data is started: its data and command events are awaited and its timeout is
  -- armed, the mutex is free, it has no error, and exactly one transfer has been made for it: with
  -- the request's command and argument and the command word of the driver's state, over a block size
  -- and count that cover the data if they are whole blocks of 512 bytes or less than one, in the
  -- caller's buffer for PIO or if that is aligned and in the bounce buffer if not, which holds the
  -- bytes of a write. For DMA the address given to the device is that of the same buffer. The card is ready, the request passes the checks before it, its data can be
  -- transferred, and the FSdif layer accepts the transfer.
  pub request-IsSubmitted :
      (r : ℕ) (d : MmcData) (s u : Softc)
      → f.block_size ≡ 512
      → polling_card_busy a.busy_before sdif_time_out ≡ returns success
      → pre_request f reg a r (record s { locked = true }) ≡ returns (success, u)
      → (u.requests r).transfer ≡ some d
      → CanTransfer reg (u.requests r) u
      → a.descriptors_ready ≡ true
      → a.transfer_started ≡ true
      → (t : Softc) × (request f reg a r s ≡ returns (success, t)) × IsSubmitted f reg r d u t
  unfolding request checked unlock
  request-IsSubmitted r d s u block free passed there can ready goes =
      let (p, e, x) = begun-submits r d u block there can ready goes in
      let t = record (submit p) { timer = true } in
      (
        record t { locked = false },
        bind-returns (polling_card_busy a.busy_before sdif_time_out) _ free
            ∙ ap (λ m. m >>= λ o. returns (unlock f reg o))
                (bind-returns (pre_request f reg a r (record s { locked = true })) _ passed ∙ e),
        x,
      )
