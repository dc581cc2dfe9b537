-- ===== src/Xmac/Rx.antt =====
-- drivers/fxmac/phytium_xmac.c: the receive ring. The device fills descriptors while
-- `phytium_xmac_recv` runs; the loop reads each of them once, so the ring of the model is what those
-- reads found. The build is the 64-bit one.
pub mod Ring
pub mod Arrivals
pub mod Fill
pub mod Drain
pub mod Recv
use phytium_sdk.Prelude.{
  ℕ, zero, suc, ◌+◌, ◌-◌, ◌/◌, ◌%◌, ◌^◌, Bool, true, false, not, ◌&&◌, ◌||◌, List, [], ◌∷◌, ◌++◌,
  Option, none, some, bit_and, bit_or, ltb, ◌==◌, if◌then◌else◌, update, length, Outcome, returns,
  panics, out_of_fuel, ◌>>=◌,
}
use phytium_sdk.Xmac.Softc.{
  XmacSoftc, Mbuf, RxDesc, Packet, Checksum, unchecked, ip_checked, ip_and_data_checked, XmacReg,
  xmac_num_rx_descs,
}

-- a ring with no buffer queued, as `phytium_xmac_setup_descs` leaves it
unfoldable pub setup_rx_descs : XmacReg → XmacSoftc → XmacSoftc
setup_rx_descs reg s = record s {
  rxring =
      update (λ i. record { addr = reg.rxbuf_new; ctl = 0; addrhi = 0 }) (xmac_num_rx_descs - 1)
        (record { addr = bit_or reg.rxbuf_new reg.rxbuf_wrap; ctl = 0; addrhi = 0 });
  rxring_m = λ i. none;
  rxring_hd_ptr = 0;
  rxring_tl_ptr = 0;
  rxring_queued = 0;
}

-- `1 << 1`
abbrev pub rx_wrap : ℕ
rx_wrap = 2

-- the address word of the descriptor `i`: the last one has the bit `wrap`
unfoldable pub rx_addr : ℕ → ℕ → Mbuf → ℕ
rx_addr wrap i m =
    if i == xmac_num_rx_descs - 1 then bit_or m.data_addr wrap % 2 ^ 32 else m.data_addr % 2 ^ 32

unfoldable pub next_index : ℕ → ℕ
next_index i = if suc i == xmac_num_rx_descs then 0 else suc i

-- the body of the loop of `phytium_xmac_fill_rqueue`
unfoldable pub queue_buffer : ℕ → Mbuf → XmacSoftc → XmacSoftc
unfolding rx_addr next_index
queue_buffer wrap m s = record s {
  rxring_m = update s.rxring_m s.rxring_hd_ptr (some m);
  rxring = update s.rxring s.rxring_hd_ptr (record {
    addr = rx_addr wrap s.rxring_hd_ptr m;
    ctl = 0;
    addrhi = m.data_addr / 2 ^ 32 % 2 ^ 32;
  });
  rxring_hd_ptr = next_index s.rxring_hd_ptr;
  rxring_queued = suc s.rxring_queued;
}

-- `alloc k` is the answer of the k-th call of `m_getcl`
unfoldable pub fill_loop : ℕ → ℕ → (ℕ → Option Mbuf) → ℕ → XmacSoftc → Outcome XmacSoftc
fill_loop wrap zero alloc k s = out_of_fuel
fill_loop wrap (suc fuel) alloc k s = elim (ltb s.rxring_queued s.rxbufs) [
  | false ↦ returns s
  | true ↦ elim (alloc k) [
    | none ↦ returns s
    | some m ↦ fill_loop wrap fuel alloc (suc k) (queue_buffer wrap m s)
  ]
]

unfoldable pub fill_rqueue : ℕ → (ℕ → Option Mbuf) → XmacSoftc → Outcome XmacSoftc
unfolding fill_loop
fill_rqueue wrap alloc s = fill_loop wrap (suc (s.rxbufs - s.rxring_queued)) alloc 0 s

-- the tail descriptor is taken
unfoldable pub advance : XmacSoftc → XmacSoftc
unfolding next_index
advance s = record s {
  rxring_m = update s.rxring_m s.rxring_tl_ptr none;
  rxring_tl_ptr = next_index s.rxring_tl_ptr;
  rxring_queued = s.rxring_queued - 1;
}

unfoldable pub count_error : XmacSoftc → XmacSoftc
count_error s = record s { ierrors = s.ierrors + 1 }

-- the packets go up to the stack
unfoldable pub input_all : List Packet → XmacSoftc → XmacSoftc
input_all taken s = record s { ipackets = s.ipackets + length taken; input = s.input ++ taken }

module _ (reg : XmacReg) where
  -- the frame check sequence is good, and the packet is whole
  unfoldable pub is_whole : ℕ → Bool
  is_whole ctl =
      (bit_and ctl reg.rxbuf_fcs_status == 0)
      && (bit_and ctl (bit_or reg.rxbuf_sof reg.rxbuf_eof) == bit_or reg.rxbuf_sof reg.rxbuf_eof)

  unfoldable pub checksum_of : Bool → ℕ → Checksum
  checksum_of enabled ctl =
      if not enabled
      then unchecked
      else if (bit_and ctl reg.rxbuf_idmatch == reg.rxbuf_id3match)
          || (bit_and ctl reg.rxbuf_idmatch == reg.rxbuf_idmatch)
      then ip_and_data_checked
      else if bit_and ctl reg.rxbuf_idmatch == reg.rxbuf_id2match
      then ip_checked
      else unchecked

  unfoldable pub packet_of : Bool → ℕ → Mbuf → Packet
  unfolding checksum_of
  packet_of enabled ctl m = record {
    mbuf = m;
    packet_data = m.data_addr + reg.ether_align;
    packet_len = bit_and ctl reg.rxbuf_len;
    checksum = checksum_of enabled ctl;
  }

  -- a descriptor that the device has filled is next
  unfoldable pub is_filled : XmacSoftc → Bool
  is_filled s =
      ltb 0 s.rxring_queued && not (bit_and (s.rxring s.rxring_tl_ptr).addr reg.rxbuf_new == 0)

  -- The loop that takes packets from the ring; `taken` is the list that `m_hd` heads. A missing
  -- mbuf is a NULL pointer that is read.
  unfoldable pub recv_loop : ℕ → List Packet → XmacSoftc → Outcome (List Packet × XmacSoftc)
  unfolding is_filled is_whole packet_of advance count_error
  recv_loop zero taken s = out_of_fuel
  recv_loop (suc fuel) taken s = elim (is_filled s) [
    | false ↦ returns (taken, s)
    | true ↦ elim (s.rxring_m s.rxring_tl_ptr) [
      | none ↦ panics
      | some m ↦ elim (is_whole (s.rxring s.rxring_tl_ptr).ctl) [
        | false ↦ recv_loop fuel taken (count_error (advance s))
        | true ↦
            recv_loop fuel (taken ++ (packet_of s.rxcsum (s.rxring s.rxring_tl_ptr).ctl m ∷ []))
              (advance s)
      ]
    ]
  ]

  unfoldable pub recv : ℕ → (ℕ → Option Mbuf) → XmacSoftc → Outcome XmacSoftc
  unfolding recv_loop fill_rqueue input_all
  recv wrap alloc s = recv_loop (suc s.rxring_queued) [] s >>= λ r.
      (fill_rqueue wrap alloc r.1 >>= λ t. returns (input_all r.0 t))
