-- ===== src/XmacV2/Tests.antt =====
-- The second driver at concrete inputs.
use phytium_sdk.Prelude.{ℕ, ◌^◌, ◌≡◌, refl, true, false, [], ◌∷◌, Option, some, arith, returns}
use phytium_sdk.Xmac.Softc.{Mbuf}
use phytium_sdk.Xmac.If.Filter.{Hashes}
use phytium_sdk.Xmac.If.Ioctl.{IoctlCalls, IoctlCmd, siocsifflags}
use phytium_sdk.Xmac.If.Opened.{IsLinkOnly}
use phytium_sdk.Xmac.Tx.Run.{IsSound}
use phytium_sdk.Xmac.Tests
use phytium_sdk.Xmac.TxTests
use phytium_sdk.Xmac.IfTests
use phytium_sdk.XmacV2.Driver.{Instance, MsgDriver, MsgReg, enable_promise}
use phytium_sdk.XmacV2.Rings.{msg_start_locked}
use phytium_sdk.XmacV2.Filter.{msg_rx_filter}
use phytium_sdk.XmacV2.Start.{msg_setup_descs, msg_init_locked, msg_stop}
use phytium_sdk.XmacV2.Intr.{msg_intr}
use phytium_sdk.XmacV2.Ioctl.{msg_ioctl}
use phytium_sdk.XmacV2.Ready.{MsgReady, KeepsMsgReady}
use phytium_sdk.XmacV2.Hashed.{last_promise, AsksFor, msg_rx_filter-AsksFor, ioctl-promise_sticks}
use phytium_sdk.XmacV2.Stopped.{IsMsgStopped, msg_stop-IsMsgStopped, msg_init_locked-MsgReady}
use phytium_sdk.XmacV2.Control.{RepliesMsgReady}
use phytium_sdk.XmacV2.Lifecycle.{
  MsgReach, at_start, then_step, opens, set_up-MsgReady, MsgReach-returns,
}
use phytium_sdk.Xmac.Attach.{setup_memory, attach_events}
use phytium_sdk.Xmac.Attach.Leaks.{replay, nothing, lifetime}
use phytium_sdk.Xmac.AttachTests.{good}
use phytium_sdk.XmacV2.Attach.{
  MsgAnswers, msg_attach_interface, msg_attach, msg_attach_rings, msg_setup_memory,
  msg_attach_events,
}
use phytium_sdk.XmacV2.Attach.Leaks.{replay-msg_lifetime}

abbrev msg_reg : MsgReg
msg_reg = record {
  hw_dma_cap_64b = 1;
  hw_dma_cap_csum = 2;
  hw_dma_cap_ddw32 = 4;
  hw_dma_cap_ddw64 = 8;
  hw_dma_cap_ddw128 = 16;
  dbw32 = 0;
  dbw64 = 2;
  dbw128 = 4;
  tx_chksum_enable_option = 2 ^ 7;
  clk_div128 = 6;
  contype_sgmii = 3;
  rxcomp_index = 1;
  rxoverrun_index = 10;
  tused_index = 3;
  rused_index = 2;
  resp_err_index = 11;
}

abbrev control : Instance
control = record {
  dma_burst_length = 16;
  dma_addr_width = 1;
  dma_data_width = 4;
  network_default_config = 2 ^ 7;
  queues_num = 1;
  rx_buffer_len = 2048;
}

abbrev down : MsgDriver
down = record {
  instance_p = control;
  rx = Tests.bare;
  tx = TxTests.blank;
  rxring_physaddr = 0x100000000;
  txring_physaddr = 0x100002000;
  rxoverruns = 0;
  rxnobufs = 0;
  has_miibus = true;
  ticking = false;
  running = false;
  flags = IfTests.up_flags;
  old_flags = IfTests.up_flags;
  txcsum = true;
  vlan_hwcsum = true;
  hwassist = true;
  eaddr = λ i. i;
  multicast = IfTests.mdns ∷ [];
  rx_freed = [];
  messages = [];
}

abbrev ready : MsgDriver
ready = msg_setup_descs Tests.reg TxTests.reg down

ready-MsgReady : MsgReady TxTests.reg ready
ready-MsgReady =
    set_up-MsgReady msg_reg Tests.reg TxTests.reg TxTests.reg-IsTxLayout TxTests.no_mbufs
      (λ p d e. absurd (ground arith)) down refl (omega arith)

opened :
    (t : MsgDriver) × (msg_init_locked msg_reg Tests.reg IfTests.calls.mii_mediachg
        IfTests.calls.m_getcl ready
      ≡ returns t)
opened =
    let (t, e, _) =
      msg_init_locked-MsgReady msg_reg Tests.reg TxTests.reg TxTests.reg-IsTxLayout IfTests.calls
        IfTests.calls-IsLinkOnly ready ready-MsgReady in
    (t, e)

ready-MsgReach : MsgReach msg_reg Tests.reg TxTests.reg TxTests.no_mbufs ready opened.0
ready-MsgReach =
    then_step at_start (opens ready opened.0 IfTests.calls IfTests.calls-IsLinkOnly opened.1)

MsgReach-returns_example :
    MsgReady TxTests.reg opened.0
    × ((istatus : ℕ) (alloc alloc_more : ℕ → Option Mbuf)
        → KeepsMsgReady TxTests.reg (
            msg_intr msg_reg Tests.reg TxTests.reg istatus alloc alloc_more TxTests.no_mbufs
              opened.0))
    × ((u : _) × (msg_start_locked TxTests.reg TxTests.no_mbufs opened.0.tx ≡ returns u)
        × IsSound TxTests.reg u)
    × ((calls : IoctlCalls) (cmd : IoctlCmd)
        → IsLinkOnly calls
        → RepliesMsgReady TxTests.reg (msg_ioctl msg_reg Tests.reg TxTests.reg calls cmd opened.0))
MsgReach-returns_example =
    MsgReach-returns msg_reg Tests.reg TxTests.reg TxTests.reg-IsTxLayout TxTests.no_mbufs
      (λ p d e. absurd (ground arith)) down opened.0 refl (omega arith) ready-MsgReach

msg_rx_filter-AsksFor_example :
    (t : MsgDriver) × (hs : Hashes) × (msg_rx_filter down ≡ returns t) × AsksFor down t hs
msg_rx_filter-AsksFor_example = msg_rx_filter-AsksFor down

-- it was promiscuous
abbrev told : MsgDriver
told = record down {
  running = true;
  old_flags = record (IfTests.up_flags) { promisc = true };
  messages = enable_promise true ∷ [];
}

ioctl-promise_sticks_example :
    (t : MsgDriver) × (msg_ioctl msg_reg Tests.reg TxTests.reg IfTests.calls siocsifflags told
      ≡ returns (0, t))
    × (last_promise t.messages ≡ some true)
unfolding last_promise
ioctl-promise_sticks_example =
    ioctl-promise_sticks msg_reg Tests.reg TxTests.reg IfTests.calls told refl refl refl refl

-- three receive buffers and one packet are in the rings
abbrev busy : MsgDriver
busy = record down { rx = Tests.filled; tx = TxTests.loaded; running = true }

msg_stop-IsMsgStopped_example :
    IsMsgStopped TxTests.reg busy (msg_stop msg_reg Tests.reg TxTests.reg busy)
msg_stop-IsMsgStopped_example =
    msg_stop-IsMsgStopped msg_reg Tests.reg TxTests.reg TxTests.reg-IsTxLayout busy

-- the interrupt handler cannot be set up
abbrev unheard : MsgAnswers
unheard = record { msg_res = true; others = record (good) { intr = false } }

replay-msg_lifetime_example :
    replay (lifetime (msg_attach unheard)) nothing
    ≡ record nothing { mutex = false; resources = true; network = true; handler = false }
unfolding msg_attach msg_attach_interface msg_attach_rings msg_attach_events msg_setup_memory
    attach_events setup_memory
replay-msg_lifetime_example = replay-msg_lifetime unheard
