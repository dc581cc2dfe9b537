-- ===== src/Xmac/Tx/Output.antt =====
-- drivers/fxmac/phytium_xmac.c: `phytium_xmac_start_locked`, which puts the packets of the send queue
-- into the transmit ring.
use phytium_sdk.Prelude.{
  ℕ, suc, ◌+◌, ◌-◌, ◌/◌, ◌%◌, ◌^◌, ◌==◌, Bool, true, false, List, [], ◌∷◌, Option, none, some,
  bit_and, bit_or, leb, length, update, if◌then◌else◌, Outcome, returns, ◌>>=◌,
}
use phytium_sdk.Xmac.Tx.Chain.{Segment, get_segs_for_tx}
use phytium_sdk.Xmac.Tx.Ring.{
  TxPacket, KickReg, tail_queue, nwctrl, TxSide, xmac_num_tx_descs, TxReg, plus_one, is_full,
  m_freem, clean_tx,
}

-- what telling the device of the new head adds to the registers written
abbrev pub Kick : Type 0
Kick = ℕ → List (KickReg × ℕ) → List (KickReg × ℕ)

-- The head is written to the tail register of version 2, and the transmission started.
unfoldable pub start_tx : TxReg → ℕ → ℕ → Kick
start_tx reg version net_ctl hd kicks =
    let start : KickReg × ℕ = (nwctrl, bit_or net_ctl reg.nwctrl_starttx) in
    if version == 2
    then start ∷ (tail_queue, bit_or (2 ^ 31) (bit_and hd (xmac_num_tx_descs - 1))) ∷ kicks
    else start ∷ kicks

module _ (reg : TxReg) where
  -- the control word of the segment `g`; `others` are the segments after it
  unfoldable pub ctl_of : Bool → Segment → List Segment → ℕ
  ctl_of wrap g [] =
      let ctl = bit_or (g.ds_len % 2 ^ 32) reg.txbuf_last in
      if wrap then bit_or ctl reg.txbuf_wrap else ctl
  ctl_of wrap g (_ ∷ _) = g.ds_len % 2 ^ 32

  -- The loop that fills the descriptors of a packet, the last first: the segments from the i-th on,
  -- at the index `base + i`.
  unfoldable pub write_descs : Bool → ℕ → ℕ → List Segment → TxSide → TxSide
  unfolding ctl_of
  write_descs wrap base i [] s = s
  write_descs wrap base i (g ∷ gs) s =
      let t = write_descs wrap base (suc i) gs s in
      record t {
        txring = update t.txring (base + i) (record {
          addr = g.ds_addr % 2 ^ 32;
          ctl = ctl_of wrap g gs;
          addrhi = g.ds_addr / 2 ^ 32 % 2 ^ 32;
        });
        txring_m = if i == 0 then t.txring_m else update t.txring_m (base + i) none;
      }

  -- the packet `m` goes into the ring, and the device is told
  unfoldable pub transmit : Kick → ℕ → List Segment → TxSide → TxSide
  unfolding write_descs
  transmit kick m segs s =
      let nsegs = length segs in
      let wrap = leb xmac_num_tx_descs (s.hd_ptr + nsegs + 8) in
      let t =
        write_descs wrap s.hd_ptr 0 segs
          (record s { txring_m = update s.txring_m s.hd_ptr (some m) }) in
      let hd = if wrap then 0 else s.hd_ptr + nsegs in
      record t {
        hd_ptr = hd;
        queued = (s.queued + nsegs) % 2 ^ 32;
        kicks = kick hd s.kicks;
        tapped = m ∷ s.tapped;
      }

  module _ (kick : Kick) (m_defrag : TxPacket → Option TxPacket) where
    -- One packet of the send queue. `m_defrag` is the answer of `m_defrag(m, M_NOWAIT)`, which
    -- frees the packet that it replaces.
    unfoldable pub send : TxPacket → TxSide → TxSide
    unfolding transmit m_freem plus_one
    send p s = elim (get_segs_for_tx p.first_mbuf p.other_mbufs) [
      | some segs ↦ transmit kick p.name segs s
      | none ↦ elim (m_defrag p) [
        | none ↦ m_freem (some p.name) (record s { txdefragfails = plus_one s.txdefragfails })
        | some q ↦
            let t = record s { txdefrags = plus_one s.txdefrags } in
            elim (get_segs_for_tx q.first_mbuf q.other_mbufs) [
              | some segs ↦ transmit kick q.name segs t
              | none ↦ m_freem (some q.name) (record t { txdmamapfails = plus_one t.txdmamapfails })
            ]
      ]
    ]

    unfoldable pub make_room : TxSide → Outcome TxSide
    unfolding clean_tx is_full
    make_room s = if is_full s then clean_tx reg s else returns s

    unfoldable pub start_loop : List TxPacket → TxSide → Outcome TxSide
    unfolding make_room send is_full plus_one
    start_loop [] s = make_room s >>= λ t. elim (is_full t) [
      | true ↦ returns (record t { oactive = true; txfull = plus_one t.txfull })
      | false ↦ returns t
    ]
    start_loop (p ∷ ps) s = make_room s >>= λ t. elim (is_full t) [
      | true ↦ returns (record t { oactive = true; txfull = plus_one t.txfull })
      | false ↦ start_loop ps (send p (record t { sendq = ps }))
    ]

    unfoldable pub start_locked : TxSide → Outcome TxSide
    unfolding start_loop
    start_locked s = if s.oactive then returns s else start_loop s.sendq s
