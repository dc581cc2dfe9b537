-- ===== src/Xmac/Tests.antt =====
-- The receive ring and MDIO at concrete inputs.
use phytium_sdk.Prelude.{
  ◌∷◌, length, ltb, if◌then◌else◌, ◌%◌, ◌^◌, ◌*◌, ℕ, ◌≡◌, refl, ◌==◌, true, List, [], none, some,
  Option, returns, arith, if◌then◌else◌,
}
use phytium_sdk.Xmac.Softc.{XmacSoftc, Mbuf, Packet, XmacReg}
use phytium_sdk.Xmac.Rx.{rx_wrap, setup_rx_descs, recv}
use phytium_sdk.Xmac.Rx.Ring.{IsRing}
use phytium_sdk.Xmac.Rx.Recv.{IsReceived, recv-IsReceived}
use phytium_sdk.Xmac.Media.{mediachange}
use phytium_sdk.Xmac.Media.Versions.{SameLink, mediachange-SameLink}
use phytium_sdk.Xmac.Tx.Chain.{TxMbuf, get_segs_for_tx}
use phytium_sdk.Xmac.Tx.Segs.{segments_of, all_but_last, get_segs_for_tx_lem}

abbrev pub reg : XmacReg
reg = record {
  rxbuf_new = 1;
  rxbuf_wrap = 2;
  rxbuf_fcs_status = 2 ^ 13;
  rxbuf_sof = 2 ^ 14;
  rxbuf_eof = 2 ^ 15;
  rxbuf_len = 0x1fff;
  rxbuf_idmatch = 0x1800000;
  rxbuf_id2match = 0x800000;
  rxbuf_id3match = 0x1000000;
  ether_align = 2;
  phymntnc_op = 2 ^ 30;
  phymntnc_op_r = 2 ^ 29;
  phymntnc_op_w = 2 ^ 28;
  phymntnc_phad_shift = 23;
  phymntnc_preg_shift = 18;
  nwcfg_100 = 1;
  nwcfg_1000 = 2 ^ 10;
  nwcfg_fden = 2;
  hsmac_speed = 7;
  contype_sgmii = 3;
  ifm_subtype = λ m. m % 32;
  ifm_1000_t = 16;
  ifm_100_tx = 6;
  ifm_fdx = 2 ^ 20;
}

abbrev pub bare : XmacSoftc
bare = record {
  rxring = λ i. record { addr = 0; ctl = 0; addrhi = 0 };
  rxring_m = λ i. none;
  rxring_hd_ptr = 0;
  rxring_tl_ptr = 0;
  rxring_queued = 0;
  rxbufs = 3;
  rxcsum = true;
  ierrors = 0;
  ipackets = 0;
  input = [];
  version = 1;
  phy_contype = 3;
  net_cfg_shadow = 0;
  mii_media_active = 0;
  writes = [];
}

-- the k-th mbuf; there are four
abbrev mbufs : ℕ → Option Mbuf
mbufs k = if k == 4 then none else some (record { name = k; data_addr = 0x1000 * k })

abbrev start : XmacSoftc
start = setup_rx_descs reg bare

-- Three buffers are queued, of which the device has filled two: the second packet is broken.
abbrev pub filled : XmacSoftc
filled = record bare {
  rxring = λ i.
      if i == 0
      then record { addr = 1; ctl = 0xc040; addrhi = 0 }
      else if i == 1
      then record { addr = 1; ctl = 0x4040; addrhi = 0 }
      else record { addr = 0; ctl = 0; addrhi = 0 };
  rxring_m = mbufs;
  rxring_hd_ptr = 3;
  rxring_queued = 3;
}

pub filled-IsRing : IsRing filled
filled-IsRing = record {
  tail = omega arith;
  fits = omega arith;
  head = refl;
  held = λ j k. (record { name = j; data_addr = 0x1000 * j }, ground arith);
}

recv-IsReceived_example :
    (t : XmacSoftc) × (recv reg rx_wrap mbufs filled ≡ returns t)
    × ((taken : List Packet) × (left : ℕ) × IsReceived reg mbufs filled t taken left)
recv-IsReceived_example = recv-IsReceived reg rx_wrap mbufs filled (omega arith) filled-IsRing

mediachange-SameLink_example :
    (t : XmacSoftc) × (u : XmacSoftc) × (mediachange reg 0 0x100006 (record bare { version = 1 })
      ≡ returns t)
    × (mediachange reg 0 0x100006 (record bare { version = 2 }) ≡ returns u)
    × SameLink 0x100006 t u
mediachange-SameLink_example = mediachange-SameLink reg 0 0x100006 bare refl

-- a header with data, an empty mbuf and the payload
abbrev head : TxMbuf
head = record { m_data = 0x1000; m_len = 54 }

abbrev chain : List TxMbuf
chain = record { m_data = 0x2000; m_len = 0 } ∷ record { m_data = 0x3000; m_len = 1400 } ∷ []

get_segs_for_tx_lem_example : get_segs_for_tx head chain ≡ (
    if ltb (length (segments_of (all_but_last head chain))) 8
    then some (segments_of (head ∷ chain))
    else none)
get_segs_for_tx_lem_example = get_segs_for_tx_lem head chain
