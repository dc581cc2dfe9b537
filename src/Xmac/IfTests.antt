-- ===== src/Xmac/IfTests.antt =====
-- The interface at concrete inputs.
use phytium_sdk.Prelude.{
  ℕ, ◌*◌, ◌^◌, ◌<◌, ◌≡◌, refl, true, false, ◌&&◌, ltb, [], ◌∷◌, Option, none, some, arith, returns,
  ◌==◌, if◌then◌else◌,
}
use phytium_sdk.Bits.{testb}
use phytium_sdk.Xmac.Softc.{Mbuf}
use phytium_sdk.Xmac.Tx.Ring.{TxSide}
use phytium_sdk.Xmac.Tx.Output.{start_tx, start_locked}
use phytium_sdk.Xmac.Tx.Run.{IsSound}
use phytium_sdk.Xmac.Tests
use phytium_sdk.Xmac.TxTests
use phytium_sdk.Xmac.If.Hash.{mac_hash, mac_hash-bits, odd_bits, bit_of}
use phytium_sdk.Xmac.If.Driver.{Driver, IfFlags, IfReg}
use phytium_sdk.Xmac.If.Filter.{Hashes, rx_filter}
use phytium_sdk.Xmac.If.Accept.{IsFilterLayout, IsFiltered, rx_filter-IsFiltered}
use phytium_sdk.Xmac.If.Start.{init_locked, stop}
use phytium_sdk.Xmac.If.Intr.{intr}
use phytium_sdk.Xmac.If.Ioctl.{IoctlCalls, IoctlCmd, siocsifflags, ioctl}
use phytium_sdk.Xmac.If.Sound.{IsReady, KeepsReady}
use phytium_sdk.Xmac.If.Stopped.{same_fields, IsStopped, stop-IsStopped}
use phytium_sdk.Xmac.If.Opened.{IsLinkOnly, init_locked-IsReady}
use phytium_sdk.Xmac.If.Control.{RepliesReady}
use phytium_sdk.Xmac.If.Flags.{FollowsFlags, ioctl-FollowsFlags}
use phytium_sdk.Xmac.If.Lifecycle.{
  attached, attached-IsReady, IfReach, at_start, then_step, opens, IfReach-returns,
}

-- the multicast address 01:00:5e:00:00:fb
abbrev pub mdns : ℕ → ℕ
mdns i = if i == 0 then 1 else if i == 2 then 0x5e else if i == 5 then 0xfb else 0

mdns_hash : mac_hash mdns ≡ returns 56
unfolding mac_hash
mdns_hash = refl

mac_hash-bits_example :
    (h : ℕ) × (mac_hash mdns ≡ returns h)
    × (h < 64)
    × ((b : ℕ) → testb h b ≡ (ltb b 6 && odd_bits (bit_of mdns) 8 b))
mac_hash-bits_example = mac_hash-bits mdns

abbrev if_reg : IfReg
if_reg = record {
  nwcfg_mcasthashen = 2 ^ 6;
  nwcfg_bcastdi = 2 ^ 5;
  nwcfg_copyallen = 2 ^ 4;
  nwcfg_bus_width_32 = 0;
  nwcfg_bus_width_64 = 2 ^ 21;
  nwcfg_bus_width_128 = 2 ^ 22;
  nwcfg_bus_width_invalid = 3 * 2 ^ 21;
  nwcfg_clock_div32 = 2 * 2 ^ 18;
  nwcfg_clock_div224 = 7 * 2 ^ 18;
  nwcfg_fcs_remove = 2 ^ 17;
  nwcfg_rx_buf_offset = 2 * 2 ^ 14;
  nwcfg_1536rxen = 2 ^ 8;
  nwcfg_sgmii_mode_enable = 2 ^ 27;
  nwcfg_pcssel = 2 ^ 11;
  nwcfg_rxchksumen = 2 ^ 24;
  designcfg_bus_width = 7 * 2 ^ 25;
  nwctrl_statclr = 2 ^ 5;
  nwctrl_mden = 2 ^ 4;
  nwctrl_txen = 2 ^ 3;
  nwctrl_rxen = 2 ^ 2;
  nwctrl_flush_dpram = 2 ^ 18;
  dma_rx_buf_size = 32 * 2 ^ 16;
  dmacr_rxsize = 3 * 2 ^ 8;
  dmacr_txsize = 2 ^ 10;
  dmacr_incr16_burst = 16;
  dmacr_addr_width_64 = 2 ^ 30;
  dmacr_orce_discard = 2 ^ 24;
  dmacr_tcpcksum = 2 ^ 11;
  ixr_rxcompl = 2;
  ixr_rxovr = 2 ^ 10;
  ixr_txused = 2 ^ 3;
  ixr_rxused = 2 ^ 2;
  ixr_hrespnok = 2 ^ 11;
  rxsr_hrespnok = 2 ^ 3;
  rxsr_rxovr = 2 ^ 2;
}

if_reg-IsFilterLayout : IsFilterLayout if_reg
if_reg-IsFilterLayout = record { copyallen_bit = refl; bcastdi_bit = refl; mcasthashen_bit = refl }

abbrev pub up_flags : IfFlags
up_flags = record { up = true; promisc = false; broadcast = true; allmulti = false }

abbrev down : Driver
down = record {
  rx = Tests.bare;
  tx = TxTests.blank;
  net_ctl_shadow = 0;
  rxring_physaddr = 0x100000000;
  txring_physaddr = 0x100002000;
  rxoverruns = 0;
  rxnobufs = 0;
  has_miibus = true;
  ticking = false;
  running = false;
  flags = up_flags;
  old_flags = up_flags;
  txcsum = true;
  vlan_hwcsum = true;
  hwassist = true;
  eaddr = λ i. i;
  multicast = mdns ∷ [];
  rx_freed = [];
  regs = [];
}

rx_filter-IsFiltered_example :
    (t : Driver) × (rx_filter if_reg down ≡ returns t)
    × ((hs : Hashes) × IsFiltered if_reg down t hs)
rx_filter-IsFiltered_example = rx_filter-IsFiltered if_reg if_reg-IsFilterLayout down

-- three receive buffers and one packet are in the rings
abbrev busy : Driver
busy = record down { rx = Tests.filled; tx = TxTests.loaded; running = true }

stop-IsStopped_example :
    IsStopped if_reg TxTests.reg busy (stop if_reg Tests.reg TxTests.reg 0 busy)
stop-IsStopped_example = stop-IsStopped if_reg Tests.reg TxTests.reg TxTests.reg-IsTxLayout 0 busy

-- one receive buffer can be had, and the PHY sets the media
abbrev pub calls : IoctlCalls
calls = record {
  designcfg_value = 0;
  dmacr_value = 0;
  m_getcl = λ k. if k == 0 then some (record { name = 1; data_addr = 0x1000 }) else none;
  mii_mediachg = λ s. record s { mii_media_active = 48 };
  ifmedia_ioctl = λ s. (0, record s { mii_media_active = 38 });
  ether_ioctl = λ flags. (0, flags, true);
}

pub calls-IsLinkOnly : IsLinkOnly calls
calls-IsLinkOnly = record {
  mediachg = λ s. same_fields _ _ refl refl refl refl refl;
  ifmedia = λ s. same_fields _ _ refl refl refl refl refl;
}

abbrev ready : Driver
ready = attached Tests.reg TxTests.reg down

ready-IsReady : IsReady TxTests.reg ready
ready-IsReady =
    attached-IsReady if_reg Tests.reg TxTests.reg TxTests.reg-IsTxLayout TxTests.no_mbufs
      (λ p d e. absurd (ground arith)) down refl (omega arith)

opened :
    (t : Driver) × (init_locked if_reg Tests.reg calls.mii_mediachg calls.m_getcl ready ≡ returns t)
opened =
    let (t, e, _) =
      init_locked-IsReady if_reg Tests.reg TxTests.reg TxTests.reg-IsTxLayout calls calls-IsLinkOnly
        ready ready-IsReady in
    (t, e)

ready-IfReach : IfReach if_reg Tests.reg TxTests.reg TxTests.no_mbufs ready opened.0
ready-IfReach = then_step at_start (opens ready opened.0 calls calls-IsLinkOnly opened.1)

IfReach-returns_example :
    IsReady TxTests.reg opened.0
    × ((istatus : ℕ) (alloc alloc_more : ℕ → Option Mbuf)
        → KeepsReady TxTests.reg
            (intr if_reg Tests.reg TxTests.reg istatus alloc alloc_more TxTests.no_mbufs opened.0))
    × ((u : TxSide) × (start_locked TxTests.reg
            (start_tx TxTests.reg opened.0.rx.version opened.0.net_ctl_shadow)
            TxTests.no_mbufs
            opened.0.tx
          ≡ returns u)
        × IsSound TxTests.reg u)
    × ((calls : IoctlCalls) (cmd : IoctlCmd)
        → IsLinkOnly calls
        → RepliesReady TxTests.reg (ioctl if_reg Tests.reg TxTests.reg calls cmd opened.0))
IfReach-returns_example =
    IfReach-returns if_reg Tests.reg TxTests.reg TxTests.reg-IsTxLayout TxTests.no_mbufs
      (λ p d e. absurd (ground arith)) down opened.0 refl (omega arith) ready-IfReach

ioctl-FollowsFlags_example :
    (t : Driver) × (ioctl if_reg Tests.reg TxTests.reg calls siocsifflags ready ≡ returns (0, t))
    × FollowsFlags TxTests.reg ready t
    × (t.old_flags ≡ t.flags)
ioctl-FollowsFlags_example =
    ioctl-FollowsFlags if_reg Tests.reg TxTests.reg TxTests.reg-IsTxLayout calls ready ready-IsReady

-- the bit for received checksums is set
abbrev checked : Driver
checked = record down { rx = record (Tests.bare) { net_cfg_shadow = 2 ^ 24 } }
