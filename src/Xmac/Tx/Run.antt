-- ===== src/Xmac/Tx/Run.antt =====
-- The driver, the network stack and the device share the transmit ring: every interleaving of their
-- steps keeps it a queue.
use phytium_sdk.Prelude.{
  ◌∙◌, ◌∙◌, ℕ, ◌^◌, ◌≡◌, inl, inr, refl, sym, ap, subst, true, List, [], ◌∷◌, ◌++◌, Option, some,
  arith, returns, Bool-cases, bit_or, returns-injective, ◌==◌, if◌then◌else◌,
}
use phytium_sdk.Xmac.Tx.Ring.{TxDesc, TxPacket, TxSide, TxReg, has, setup_tx_descs, clean_tx}
use phytium_sdk.Xmac.Tx.Output.{Kick, start_locked, start_loop}
use phytium_sdk.Xmac.Tx.Words.{IsTxLayout}
use phytium_sdk.Xmac.Tx.Queue.{IsUsed, InFlight, IsTxRing}
use phytium_sdk.Xmac.Tx.Keep.{Holds-SameMarks}
use phytium_sdk.Xmac.Tx.Drain.{clean_tx-IsDrained}
use phytium_sdk.Xmac.Tx.Sendable.{IsSendable}
use phytium_sdk.Xmac.Tx.Start.{start_locked-IsPumped}
use phytium_sdk.Xmac.Tx.Pump.{AreSendable}

-- The device reports on descriptors: it sets marks as used and status bits, and leaves the marks of the
-- ends of packets and of the wrap alone.
pub record IsReport (reg : TxReg) (before after : ℕ → TxDesc) : Type 0 where
  pub same_last : (p : ℕ) → has (after p).ctl reg.txbuf_last ≡ has (before p).ctl reg.txbuf_last
  pub same_wrap : (p : ℕ) → has (after p).ctl reg.txbuf_wrap ≡ has (before p).ctl reg.txbuf_wrap
  pub used_kept : (p : ℕ) → IsUsed reg before p → IsUsed reg after p

module _ (reg : TxReg) (l : IsTxLayout reg) where
  pub fresh_used : has reg.txbuf_used reg.txbuf_used ≡ true
  unfolding has
  fresh_used = subst (λ x. has x x ≡ true) (sym l.used_bit) refl

  pub wrap_used : has (bit_or reg.txbuf_used reg.txbuf_wrap) reg.txbuf_used ≡ true
  unfolding has
  wrap_used =
      subst (λ x. has (bit_or x reg.txbuf_wrap) x ≡ true) (sym l.used_bit)
        (subst (λ x. has (bit_or (2 ^ 31) x) (2 ^ 31) ≡ true) (sym l.wrap_bit) refl)

  pub setup_tx_descs-IsTxRing : (s : TxSide) → IsTxRing reg [] (setup_tx_descs reg s)
  unfolding setup_tx_descs
  setup_tx_descs-IsTxRing s = record {
    holds = refl;
    counted = refl;
    room = omega arith;
    tail = omega arith;
    idle_used = λ p inside idle. elim (Bool-cases (511 == p)) [
      | inl last ↦ rw last wrap_used
      | inr other ↦ rw other fresh_used
    ];
  }

  pub report-IsTxRing :
      (q : List InFlight) (s : TxSide) (ring : ℕ → TxDesc)
      → IsReport reg s.txring ring
      → IsTxRing reg q s
      → IsTxRing reg q (record s { txring = ring })
  report-IsTxRing q s ring f r = record {
    holds =
        Holds-SameMarks reg s.txring ring s.txring_m s.txring_m s.tl_ptr q s.hd_ptr
          (λ p busy. record {
            same_last = f.same_last p;
            same_wrap = f.same_wrap p;
            same_packet = refl;
          })
          r.holds;
    counted = r.counted;
    room = r.room;
    tail = r.tail;
    idle_used = λ p inside idle. f.used_kept p (r.idle_used p inside idle);
  }

AreSendable-append :
    (ps qs : List TxPacket) → AreSendable ps → AreSendable qs → AreSendable (ps ++ qs)
AreSendable-append [] qs a b = b
AreSendable-append (p ∷ ps) qs a b = (a.0, AreSendable-append ps qs a.1 b)

AreSendable-suffix : (ps qs : List TxPacket) → AreSendable (ps ++ qs) → AreSendable qs
AreSendable-suffix [] qs a = a
AreSendable-suffix (p ∷ ps) qs a = AreSendable-suffix ps qs a.1

module _ (reg : TxReg) (kick : Kick) (m_defrag : TxPacket → Option TxPacket) where
  -- A packet arrives, the device reports, or the driver cleans the ring or starts transmission.
  pub data TxStep : TxSide → TxSide → Type 0 where
    arrives :
        (s : TxSide) (p : TxPacket)
        → IsSendable p
        → TxStep s (record s { sendq = s.sendq ++ (p ∷ []) })
    reports :
        (s : TxSide) (ring : ℕ → TxDesc)
        → IsReport reg s.txring ring
        → TxStep s (record s { txring = ring })
    cleans : (s t : TxSide) → clean_tx reg s ≡ returns t → TxStep s t
    starts : (s t : TxSide) → start_locked reg kick m_defrag s ≡ returns t → TxStep s t

  pub data TxReach (s : TxSide) : TxSide → Type 0 where
    here : TxReach s s
    next : {t u : TxSide} → TxReach s t → TxStep t u → TxReach s u

-- the invariant: the ring holds a queue, and what waits is sendable
pub record IsSound (reg : TxReg) (s : TxSide) : Type 0 where
  pub queue : List InFlight
  pub ring : IsTxRing reg queue s
  pub waiting : AreSendable s.sendq

module _ (reg : TxReg) (l : IsTxLayout reg) (kick : Kick) (m_defrag : TxPacket → Option TxPacket)
    (keeps : (p d : TxPacket) → m_defrag p ≡ some d → IsSendable d) where
  pub clean_tx-IsSound :
      (s : TxSide) → IsSound reg s → (t : TxSide) × (clean_tx reg s ≡ returns t) × IsSound reg t
  clean_tx-IsSound s f =
      let (t, e, (done, rest, d)) = clean_tx-IsDrained reg l f.queue s f.ring in
      (
        t,
        e,
        record {
          queue = rest;
          ring = d.ring;
          waiting = subst AreSendable (sym d.cleaned.same_sendq) f.waiting;
        },
      )

  pub start_locked-IsSound :
      (s : TxSide)
      → IsSound reg s
      → (t : TxSide) × (start_locked reg kick m_defrag s ≡ returns t) × IsSound reg t
  unfolding start_locked
  start_locked-IsSound s f = elim (Bool-cases s.oactive) [
    | inl busy ↦
        (s, ap (λ b. if b then returns s else start_loop reg kick m_defrag s.sendq s) busy, f)
    | inr idle ↦
        let (t, e, (sent, done, q', g)) =
          start_locked-IsPumped reg l kick m_defrag keeps f.queue s idle f.waiting f.ring in
        let (ps, same, _) = g.taken in
        (
          t,
          e,
          record {
            queue = q';
            ring = g.ring;
            waiting = AreSendable-suffix ps t.sendq (subst AreSendable same f.waiting);
          },
        )
  ]

  pub TxStep-IsSound : {s t : TxSide} → TxStep reg kick m_defrag s t → IsSound reg s → IsSound reg t
  TxStep-IsSound (arrives s p ok) f = record {
    queue = f.queue;
    ring = record {
      holds = f.ring.holds;
      counted = f.ring.counted;
      room = f.ring.room;
      tail = f.ring.tail;
      idle_used = f.ring.idle_used;
    };
    waiting = AreSendable-append s.sendq (p ∷ []) f.waiting (ok, tt);
  }
  TxStep-IsSound (reports s ring g) f = record {
    queue = f.queue;
    ring = report-IsTxRing reg l f.queue s ring g f.ring;
    waiting = f.waiting;
  }
  TxStep-IsSound (cleans s t e) f =
      let (u, e', g) = clean_tx-IsSound s f in
      subst (IsSound reg) (returns-injective (sym e' ∙ e)) g
  TxStep-IsSound (starts s t e) f =
      let (u, e', g) = start_locked-IsSound s f in
      subst (IsSound reg) (returns-injective (sym e' ∙ e)) g

  TxReach-IsSound : {s t : TxSide} → TxReach reg kick m_defrag s t → IsSound reg s → IsSound reg t
  TxReach-IsSound here f = f
  TxReach-IsSound (next r step) f = TxStep-IsSound step (TxReach-IsSound r f)

  -- However the arrival of packets, the reports of the device, cleaning and starting follow one
  -- another after the set-up of the ring, the ring holds a queue of packets, the device stops at
  -- every descriptor outside it, and both cleaning and starting return. No packet waits at first,
  -- packets that arrive and what `m_defrag` makes of them hold data in mbufs below 16 KiB, the device
  -- reports as `IsReport` says, and the masks of a descriptor's marks are those of the manual.
  pub TxReach-IsTxRing :
      (s t : TxSide)
      → s.sendq ≡ []
      → TxReach reg kick m_defrag (setup_tx_descs reg s) t
      → ((q : List InFlight) × IsTxRing reg q t)
        × ((u : TxSide) × (clean_tx reg t ≡ returns u))
        × ((u : TxSide) × (start_locked reg kick m_defrag t ≡ returns u))
  unfolding setup_tx_descs
  TxReach-IsTxRing s t none_waits r =
      let f = TxReach-IsSound r (record {
        queue = [];
        ring = setup_tx_descs-IsTxRing reg l s;
        waiting = subst AreSendable (sym none_waits) tt;
      }) in
      let (u, e, _) = clean_tx-IsSound t f in
      let (v, e', _) = start_locked-IsSound t f in ((f.queue, f.ring), (u, e), (v, e'))
