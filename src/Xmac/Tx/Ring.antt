-- ===== src/Xmac/Tx/Ring.antt =====
-- drivers/fxmac/phytium_xmac.c: the transmit side of `struct phytium_xmac_softc`, with what it has of
-- the interface, and `phytium_xmac_clean_tx`. The device marks descriptors while the loop runs; it
-- reads each mark once, so the ring of the model is what those reads found. The build is the 64-bit
-- one.
use phytium_sdk.Prelude.{
  ℕ, zero, suc, ◌+◌, ◌-◌, ◌%◌, ◌^◌, ◌==◌, Bool, true, false, not, ◌&&◌, List, ◌∷◌, Option, none,
  some, bit_and, bit_or, ltb, leb, update, if◌then◌else◌, Outcome, returns, out_of_fuel, ◌>>=◌,
}
use phytium_sdk.Xmac.Tx.Chain.{TxMbuf}

-- a packet to send: the mbuf that stands for it, and the chain
pub record TxPacket : Type 0 where
  pub name : ℕ
  pub first_mbuf : TxMbuf
  pub other_mbufs : List TxMbuf

-- `struct phytium_xmac_tx_desc`
pub record TxDesc : Type 0 where
  pub addr : ℕ
  pub ctl : ℕ
  pub addrhi : ℕ

-- The registers that the transmit side writes: `FXMAC_TAIL_QUEUE(0)` and `FXMAC_NWCTRL_OFFSET`, and
-- `FXMAC_MSG_TX_PTR(0)` of the second driver.
pub data KickReg : Type 0 where
  tail_queue nwctrl tx_ptr : KickReg

pub record TxSide : Type 0 where
  -- the descriptor ring and `txring_m`, by index; `none` is NULL
  pub txring : ℕ → TxDesc
  pub txring_m : ℕ → Option ℕ
  pub hd_ptr : ℕ
  pub tl_ptr : ℕ
  -- an `int`, as its bit pattern
  pub queued : ℕ
  -- `txfull`, `txdefrags`, `txdefragfails` and `txdmamapfails`
  pub txfull : ℕ
  pub txdefrags : ℕ
  pub txdefragfails : ℕ
  pub txdmamapfails : ℕ
  -- IFF_DRV_OACTIVE, the send queue, IFCOUNTER_OERRORS and IFCOUNTER_OPACKETS
  pub oactive : Bool
  pub sendq : List TxPacket
  pub oerrors : ℕ
  pub opackets : ℕ
  -- the packets freed by `m_freem` and shown to BPF, and the registers written, newest first
  pub freed : List ℕ
  pub tapped : List ℕ
  pub kicks : List (KickReg × ℕ)

-- `XMAC_NUM_TX_DESCS`, `TX_MAX_DMA_SEGS` and the room that `start_locked` keeps
abbrev pub xmac_num_tx_descs : ℕ
xmac_num_tx_descs = 512

abbrev pub tx_room : ℕ
tx_room = 496

-- The masks of fxmac_bd.h and fxmac_hw.h that the transmit side uses.
pub record TxReg : Type 0 where
  pub txbuf_used : ℕ
  pub txbuf_wrap : ℕ
  pub txbuf_last : ℕ
  pub txbuf_exh : ℕ
  pub txbuf_retry : ℕ
  pub txbuf_tcp : ℕ
  pub nwctrl_starttx : ℕ

-- `(ctl & mask) != 0`
unfoldable pub has : ℕ → ℕ → Bool
has ctl mask = not (bit_and ctl mask == 0)

-- `x++` on a `u_int`, `x--` on an `int`, and `0 < x` on an `int`
unfoldable pub plus_one : ℕ → ℕ
plus_one x = (x + 1) % 2 ^ 32

unfoldable pub minus_one : ℕ → ℕ
minus_one x = (x + 2 ^ 32 - 1) % 2 ^ 32

unfoldable pub is_positive : ℕ → Bool
is_positive x = ltb 0 x && ltb x (2 ^ 31)

-- `txring_queued >= XMAC_NUM_TX_DESCS - TX_MAX_DMA_SEGS * 2`
unfoldable pub is_full : TxSide → Bool
is_full s = leb tx_room s.queued && ltb s.queued (2 ^ 31)

-- a ring with nothing queued, as `phytium_xmac_setup_descs` leaves it
unfoldable pub setup_tx_descs : TxReg → TxSide → TxSide
setup_tx_descs reg s = record s {
  txring =
      update (λ i. record { addr = 0; ctl = reg.txbuf_used; addrhi = 0 }) (xmac_num_tx_descs - 1)
        (record { addr = 0; ctl = bit_or reg.txbuf_used reg.txbuf_wrap; addrhi = 0 });
  txring_m = λ i. none;
  hd_ptr = 0;
  tl_ptr = 0;
  queued = 0;
}

unfoldable pub m_freem : Option ℕ → TxSide → TxSide
m_freem none s = s
m_freem (some m) s = record s { freed = m ∷ s.freed }

module _ (reg : TxReg) where
  -- the tail leaves a descriptor whose control word is `ctl`
  unfoldable pub step_tail : ℕ → TxSide → TxSide
  unfolding has minus_one
  step_tail ctl s = record s {
    tl_ptr = if has ctl reg.txbuf_wrap then 0 else suc s.tl_ptr;
    queued = minus_one s.queued;
  }

  -- `txring[txring_tl_ptr].ctl |= FXMAC_TXBUF_USED_MASK`
  unfoldable pub mark_used : TxSide → TxSide
  mark_used s = record s {
    txring =
        update s.txring s.tl_ptr
          (record (s.txring s.tl_ptr) { ctl = bit_or (s.txring s.tl_ptr).ctl reg.txbuf_used });
  }

  -- The loop to the last descriptor of a packet, from the control word `ctl`. It ends with the
  -- control word of that descriptor.
  unfoldable pub skip_loop : ℕ → ℕ → TxSide → Outcome (ℕ × TxSide)
  unfolding has step_tail mark_used
  skip_loop zero ctl s = out_of_fuel
  skip_loop (suc fuel) ctl s = elim (has ctl reg.txbuf_last) [
    | true ↦ returns (ctl, s)
    | false ↦ let t = step_tail ctl s in skip_loop fuel (t.txring t.tl_ptr).ctl (mark_used t)
  ]

  -- The mbuf of the tail's packet is freed, and how the packet fared is counted. A bus error is
  -- printed only.
  unfoldable pub retire : TxSide → TxSide
  unfolding has m_freem
  retire s =
      let ctl = (s.txring s.tl_ptr).ctl in
      let t = record (m_freem (s.txring_m s.tl_ptr) s) {
        txring_m = update s.txring_m s.tl_ptr none;
      } in
      if has ctl reg.txbuf_exh
      then t
      else if has ctl (bit_or reg.txbuf_retry reg.txbuf_tcp)
      then record t { oerrors = t.oerrors + 1 }
      else record t { opackets = t.opackets + 1 }

  -- the body of the loop of `clean_tx`
  unfoldable pub clean_one : TxSide → Outcome TxSide
  unfolding retire skip_loop step_tail
  clean_one s = skip_loop (suc s.queued) (s.txring s.tl_ptr).ctl (retire s) >>= λ r.
      returns (record (step_tail r.0 r.1) { oactive = false })

  -- a packet has been sent by the device
  unfoldable pub is_sent : TxSide → Bool
  unfolding has is_positive
  is_sent s = is_positive s.queued && has (s.txring s.tl_ptr).ctl reg.txbuf_used

  unfoldable pub clean_loop : ℕ → TxSide → Outcome TxSide
  unfolding is_sent clean_one
  clean_loop zero s = out_of_fuel
  clean_loop (suc fuel) s = elim (is_sent s) [
    | false ↦ returns s
    | true ↦ clean_one s >>= clean_loop fuel
  ]

  unfoldable pub clean_tx : TxSide → Outcome TxSide
  unfolding clean_loop
  clean_tx s = clean_loop (suc s.queued) s
