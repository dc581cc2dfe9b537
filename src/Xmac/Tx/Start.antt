-- ===== src/Xmac/Tx/Start.antt =====
-- Starting transmission refines a queue: packets enter at the end and leave at the front.
use mathlib.Core.List.{append-nil}
use phytium_sdk.Prelude.{
  ◌≡◌, inl, inr, refl, sym, ap, ◌∙◌, true, false, List, [], ◌∷◌, ◌++◌, Option, some, Bool-cases,
  leb, if◌then◌else◌, arith, returns,
}
use phytium_sdk.Xmac.Tx.Ring.{TxPacket, TxSide, TxReg, is_full, plus_one}
use phytium_sdk.Xmac.Tx.Output.{Kick, send, make_room, start_loop, start_locked}
use phytium_sdk.Xmac.Tx.Words.{IsTxLayout}
use phytium_sdk.Xmac.Tx.Queue.{InFlight, total, IsTxRing}
use phytium_sdk.Xmac.Tx.Drain.{clean_tx-IsDrained}
use phytium_sdk.Xmac.Tx.Sendable.{IsSendable, send-IsSent}
use phytium_sdk.Xmac.Tx.Pump.{AreSendable, IsPumped, IsTxRing-flags, HasRoom, pump_step}

module _ (reg : TxReg) (l : IsTxLayout reg) (kick : Kick)
    (m_defrag : TxPacket → Option TxPacket) where
  is_full-total :
      (q : List InFlight) (s : TxSide) → IsTxRing reg q s → is_full s ≡ leb 496 (total q)
  unfolding is_full
  is_full-total q s r = ground (arith, r.counted, r.room)

  make_room-HasRoom :
      (q : List InFlight) (s : TxSide)
      → IsTxRing reg q s
      → (t : TxSide) × (make_room reg kick m_defrag s ≡ returns t)
        × ((done : List InFlight) × (rest : List InFlight) × HasRoom reg q done rest s t)
  unfolding make_room
  make_room-HasRoom q s r = elim (Bool-cases (is_full s)) [
    | inr roomy ↦ (
      s,
      ground (arith, roomy),
      (
        [],
        q,
        record {
          split = refl;
          ring = r;
          same_tapped = refl;
          same_sendq = refl;
          reported = tt;
          moved = refl;
          used_back = λ p v. inl v;
        },
      ),
    )
    | inl full ↦
        let (t, e, (done, rest, d)) = clean_tx-IsDrained reg l q s r in
        (
          t,
          ground (arith, full, e),
          (
            done,
            rest,
            record {
              split = d.split;
              ring = d.ring;
              same_tapped = d.cleaned.same_tapped;
              same_sendq = d.cleaned.same_sendq;
              reported = d.reported;
              moved = d.moved;
              used_back = d.used_back;
            },
          ),
        )
  ]

  blocked : TxSide → TxSide
  blocked t = record t { oactive = true; txfull = plus_one t.txfull }

  start_loop-nil :
      (s : TxSide) {t : TxSide}
      → make_room reg kick m_defrag s ≡ returns t
      → start_loop reg kick m_defrag [] s ≡ returns (if is_full t then blocked t else t)
  unfolding start_loop blocked
  start_loop-nil s {t} e = elim (Bool-cases (is_full t)) [
    | inl full ↦ ground (arith, e, full)
    | inr roomy ↦ ground (arith, e, roomy)
  ]

  start_loop-full :
      (p : TxPacket) (ps : List TxPacket) (s : TxSide) {t : TxSide}
      → make_room reg kick m_defrag s ≡ returns t
      → is_full t ≡ true
      → start_loop reg kick m_defrag (p ∷ ps) s ≡ returns (blocked t)
  unfolding start_loop blocked
  start_loop-full p ps s e full = ground (arith, e, full)

  start_loop-cons :
      (p : TxPacket) (ps : List TxPacket) (s : TxSide) {t : TxSide}
      → make_room reg kick m_defrag s ≡ returns t
      → is_full t ≡ false
      → start_loop reg kick m_defrag (p ∷ ps) s
        ≡ start_loop reg kick m_defrag ps (send reg kick m_defrag p (record t { sendq = ps }))
  unfolding start_loop
  start_loop-cons p ps s e roomy = ground (arith, e, roomy)

  -- the loop stops with the ring full
  blocked-IsPumped :
      (q done rest : List InFlight) (s t : TxSide)
      → HasRoom reg q done rest s t
      → is_full t ≡ true
      → IsPumped reg q [] done rest s (blocked t)
  unfolding blocked
  blocked-IsPumped q done rest s t h full = record {
    fifo = append-nil q ∙ h.split;
    stays = (rest, h.split, sym (append-nil rest));
    reported = h.reported;
    ring = IsTxRing-flags reg rest t true (plus_one t.txfull) t.sendq h.ring;
    told = h.same_tapped;
    settled = inr (refl, ground (arith, is_full-total rest t h.ring, full));
    taken = ([], sym h.same_sendq, omega arith);
  }

  module _ (keeps : (p d : TxPacket) → m_defrag p ≡ some d → IsSendable d) where
    start_loop-IsPumped :
        (sq : List TxPacket) (q : List InFlight) (s : TxSide)
        → s.sendq ≡ sq
        → AreSendable sq
        → IsTxRing reg q s
        → (t : TxSide) × (start_loop reg kick m_defrag sq s ≡ returns t)
          × ((sent : List InFlight) × (done : List InFlight) × (q' : List InFlight) × IsPumped reg q
                sent done q' s t)
    start_loop-IsPumped [] q s same ok r =
        let (t, e, (done, rest, h)) = make_room-HasRoom q s r in
        elim (Bool-cases (is_full t)) [
          | inl full ↦ (
            blocked t,
            start_loop-nil s e ∙ rw full refl,
            ([], done, rest, blocked-IsPumped q done rest s t h full),
          )
          | inr roomy ↦ (
            t,
            start_loop-nil s e ∙ rw roomy refl,
            (
              [],
              done,
              rest,
              record {
                fifo = append-nil q ∙ h.split;
                stays = (rest, h.split, sym (append-nil rest));
                reported = h.reported;
                ring = h.ring;
                told = h.same_tapped;
                settled = inl (h.same_sendq ∙ same);
                taken = ([], sym h.same_sendq, omega arith);
              },
            ),
          )
        ]
    start_loop-IsPumped (p ∷ ps) q s same (ok, oks) r =
        let (t, e, (done, rest, h)) = make_room-HasRoom q s r in
        elim (Bool-cases (is_full t)) [
          | inl full ↦ (
            blocked t,
            start_loop-full p ps s e full,
            ([], done, rest, blocked-IsPumped q done rest s t h full),
          )
          | inr roomy ↦
              let u = record t { sendq = ps } in
              let (new, f) =
                send-IsSent reg l kick m_defrag keeps p rest u
                  (IsTxRing-flags reg rest t t.oactive t.txfull ps h.ring)
                  (ground (arith, is_full-total rest t h.ring, roomy)) ok in
              let (v, e', (sent, done', q', g)) =
                start_loop-IsPumped ps (rest ++ new) (send reg kick m_defrag p u) f.same_sendq oks
                  f.ring in
              (
                v,
                start_loop-cons p ps s e roomy ∙ e',
                (new ++ sent, done ++ done', q', pump_step p ps same h f g),
              )
        ]

    -- Starting transmission always ends, whatever the device has sent by then, and works the ring as
    -- a queue: the packets handed to the device, in the order in which they were shown to BPF, enter
    -- the queue at its end, the ones that leave it at its front were in it before and the device had
    -- marked the first descriptor of each as used, and no descriptor in flight is overwritten, since
    -- the ring holds the queue that results. It stops only when the send queue is empty or, with the interface marked as busy, when at least 496
    -- descriptors are in flight. The interface is not marked as busy before, the ring holds a queue,
    -- the packets of the send queue and what `m_defrag` makes of them hold data in mbufs below 16
    -- KiB, and the masks of a descriptor's marks are those of the manual.
    pub start_locked-IsPumped :
        (q : List InFlight) (s : TxSide)
        → s.oactive ≡ false
        → AreSendable s.sendq
        → IsTxRing reg q s
        → (t : TxSide) × (start_locked reg kick m_defrag s ≡ returns t)
          × ((sent : List InFlight) × (done : List InFlight) × (q' : List InFlight) × IsPumped reg q
                sent done q' s t)
    unfolding start_locked
    start_locked-IsPumped q s idle ok r =
        let (t, e, f) = start_loop-IsPumped s.sendq q s refl ok r in
        (t, ap (λ b. if b then returns s else start_loop reg kick m_defrag s.sendq s) idle ∙ e, f)
