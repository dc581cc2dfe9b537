-- ===== src/Xmac/TxTests.antt =====
-- The transmit ring at concrete inputs.
use phytium_sdk.Prelude.{
  ◌*◌, ◌^◌, ◌<◌, ◌≡◌, ◌⊎◌, refl, false, List, [], ◌∷◌, Option, none, arith, returns, result_of,
}
use phytium_sdk.Xmac.Tx.Chain.{Segment}
use phytium_sdk.Xmac.Tx.Segs.{segments_of}
use phytium_sdk.Xmac.Tx.Ring.{TxPacket, TxSide, TxReg, setup_tx_descs, mark_used, clean_tx}
use phytium_sdk.Xmac.Tx.Output.{start_tx, transmit, start_locked}
use phytium_sdk.Xmac.Tx.Skip.{mark_used-IsUsed, mark_used-SameMarks, mark_used-IsUsed_mono}
use phytium_sdk.Xmac.Tx.Words.{IsTxLayout}
use phytium_sdk.Xmac.Tx.Queue.{InFlight, IsIdle, IsTxRing}
use phytium_sdk.Xmac.Tx.Drain.{IsDrained, clean_tx-IsDrained, clean_tx-frees_all}
use phytium_sdk.Xmac.Tx.Send.{transmit-IsTxRing, transmit_bounds}
use phytium_sdk.Xmac.Tx.Sendable.{IsSendable}
use phytium_sdk.Xmac.Tx.Start.{start_locked-IsPumped}
use phytium_sdk.Xmac.Tx.Pump.{IsPumped}
use phytium_sdk.Xmac.Tx.Run.{
  setup_tx_descs-IsTxRing, report-IsTxRing, IsReport, TxReach, here, next, arrives, starts,
  TxReach-IsTxRing,
}

abbrev pub reg : TxReg
reg = record {
  txbuf_used = 2 ^ 31;
  txbuf_wrap = 2 ^ 30;
  txbuf_last = 2 ^ 15;
  txbuf_exh = 2 ^ 27;
  txbuf_retry = 2 ^ 29;
  txbuf_tcp = 7 * 2 ^ 20;
  nwctrl_starttx = 2 ^ 9;
}

pub reg-IsTxLayout : IsTxLayout reg
reg-IsTxLayout = record { used_bit = refl; wrap_bit = refl; last_bit = refl }

abbrev pub blank : TxSide
blank = record {
  txring = λ i. record { addr = 0; ctl = 0; addrhi = 0 };
  txring_m = λ i. none;
  hd_ptr = 0;
  tl_ptr = 0;
  queued = 0;
  txfull = 0;
  txdefrags = 0;
  txdefragfails = 0;
  txdmamapfails = 0;
  oactive = false;
  sendq = [];
  oerrors = 0;
  opackets = 0;
  freed = [];
  tapped = [];
  kicks = [];
}

abbrev fresh : TxSide
fresh = setup_tx_descs reg blank

-- a packet of two mbufs
abbrev pub packet : TxPacket
packet = record {
  name = 7;
  first_mbuf = record { m_data = 0x1000; m_len = 54 };
  other_mbufs = record { m_data = 0x3000; m_len = 1400 } ∷ [];
}

abbrev pieces : List Segment
pieces = record { ds_addr = 0x1000; ds_len = 54 } ∷ record { ds_addr = 0x3000; ds_len = 1400 } ∷ []

pub packet-IsSendable : IsSendable packet
unfolding segments_of
packet-IsSendable = record { some_data = omega arith; small = omega arith }

-- the ring with the packet in it
abbrev pub loaded : TxSide
loaded = transmit reg (start_tx reg 1 0) 7 pieces fresh

pub loaded-IsTxRing : IsTxRing reg (record { packet = 7; descs = 2 } ∷ []) loaded
loaded-IsTxRing =
    transmit-IsTxRing reg reg-IsTxLayout 7 pieces [] fresh
      (setup_tx_descs-IsTxRing reg reg-IsTxLayout blank) (omega arith) (omega arith) (omega arith)
      (omega arith) (start_tx reg 1 0)

transmit_bounds_example :
    ((transmit reg (start_tx reg 1 0) 7 pieces fresh).txring 1 ≡ fresh.txring 1)
    ⊎ ((1 < 512) × IsIdle 1 fresh.tl_ptr [])
transmit_bounds_example =
    transmit_bounds reg reg-IsTxLayout 7 pieces [] fresh
      (setup_tx_descs-IsTxRing reg reg-IsTxLayout blank) (omega arith) (omega arith) (omega arith)
      (omega arith) (start_tx reg 1 0) 1

-- the device has sent the packet
abbrev reported : TxSide
reported = record loaded { txring = (mark_used reg loaded).txring }

loaded-IsReport : IsReport reg loaded.txring reported.txring
loaded-IsReport = record {
  same_last = λ p. (mark_used-SameMarks reg reg-IsTxLayout loaded p).same_last;
  same_wrap = λ p. (mark_used-SameMarks reg reg-IsTxLayout loaded p).same_wrap;
  used_kept = λ p. mark_used-IsUsed_mono reg reg-IsTxLayout loaded p;
}

clean_tx-IsDrained_example :
    (t : TxSide) × (clean_tx reg reported ≡ returns t)
    × ((done : List InFlight) × (rest : List InFlight) × IsDrained reg
          (record { packet = 7; descs = 2 } ∷ [])
          done
          rest
          reported
          t)
clean_tx-IsDrained_example =
    clean_tx-IsDrained reg reg-IsTxLayout (record { packet = 7; descs = 2 } ∷ []) reported (
      report-IsTxRing reg reg-IsTxLayout (record { packet = 7; descs = 2 } ∷ []) loaded
        reported.txring loaded-IsReport loaded-IsTxRing)

abbrev one_packet : List InFlight
one_packet = record { packet = 7; descs = 2 } ∷ []

clean_tx-frees_all_example :
    (t : TxSide) × (clean_tx reg reported ≡ returns t)
    × IsTxRing reg [] t
    × (t.freed ≡ 7 ∷ reported.freed)
    × ((one_packet ≡ []) ⊎ (t.oactive ≡ false))
clean_tx-frees_all_example =
    clean_tx-frees_all reg reg-IsTxLayout one_packet reported
      (report-IsTxRing reg reg-IsTxLayout one_packet loaded reported.txring loaded-IsReport
        loaded-IsTxRing)
      (mark_used-IsUsed reg reg-IsTxLayout loaded, tt)

reported_cleaned : TxSide
reported_cleaned = result_of reported (clean_tx reg reported)

-- the packet is freed and counted
reported_cleaned_ok : (reported_cleaned.freed ≡ 7 ∷ []) × (reported_cleaned.opackets ≡ 1)
unfolding reported_cleaned clean_tx transmit mark_used setup_tx_descs
reported_cleaned_ok = (refl, refl)

-- `m_defrag` fails
abbrev pub no_mbufs : TxPacket → Option TxPacket
no_mbufs p = none

abbrev waiting : TxSide
waiting = record fresh { sendq = packet ∷ [] }

waiting-IsTxRing : IsTxRing reg [] waiting
unfolding setup_tx_descs
waiting-IsTxRing = setup_tx_descs-IsTxRing reg reg-IsTxLayout (record blank { sendq = packet ∷ [] })

start_locked-IsPumped_example :
    (t : TxSide) × (start_locked reg (start_tx reg 1 0) no_mbufs waiting ≡ returns t)
    × ((sent : List InFlight) × (done : List InFlight) × (q' : List InFlight) × IsPumped reg [] sent
          done q' waiting t)
unfolding setup_tx_descs
start_locked-IsPumped_example =
    start_locked-IsPumped reg reg-IsTxLayout (start_tx reg 1 0) no_mbufs
      (λ p d e. absurd (ground arith)) [] waiting refl (packet-IsSendable, tt) waiting-IsTxRing

waiting_started : (t : TxSide) × (start_locked reg (start_tx reg 1 0) no_mbufs waiting ≡ returns t)
unfolding setup_tx_descs
waiting_started =
    let (t, e, _) =
      start_locked-IsPumped reg reg-IsTxLayout (start_tx reg 1 0) no_mbufs
        (λ p d e. absurd (ground arith)) [] waiting refl (packet-IsSendable, tt) waiting-IsTxRing in
    (t, e)

fresh-TxReach : TxReach reg (start_tx reg 1 0) no_mbufs fresh waiting_started.0
unfolding setup_tx_descs
fresh-TxReach =
    next (next here (arrives fresh packet packet-IsSendable))
      (starts waiting waiting_started.0 waiting_started.1)

TxReach-IsTxRing_example :
    ((q : List InFlight) × IsTxRing reg q waiting_started.0)
    × ((u : TxSide) × (clean_tx reg waiting_started.0 ≡ returns u))
    × ((u : TxSide) × (start_locked reg (start_tx reg 1 0) no_mbufs waiting_started.0 ≡ returns u))
TxReach-IsTxRing_example =
    TxReach-IsTxRing reg reg-IsTxLayout (start_tx reg 1 0) no_mbufs (λ p d e. absurd (ground arith))
      blank waiting_started.0 refl fresh-TxReach
