-- ===== src/Xmac/Tx/Sendable.antt =====
-- Sending one packet of the send queue, as it is or defragmented, or dropping it.
use mathlib.Core.List.{append-nil}
use phytium_sdk.Prelude.{
  ℕ, suc, ◌≤◌, ◌<◌, ◌≡◌, ◌⊎◌, inl, inr, false, refl, sym, subst, List, [], ◌∷◌, ◌++◌, Option, some,
  none, Option-cases, arith, length,
}
use phytium_sdk.Xmac.Tx.Chain.{TxMbuf, Segment, get_segs_for_tx}
use phytium_sdk.Xmac.Tx.Segs.{segments_of, all_but_last, get_segs_for_tx_lem}
use phytium_sdk.Xmac.Tx.Ring.{TxPacket, TxSide, TxReg, has, m_freem, plus_one}
use phytium_sdk.Xmac.Tx.Output.{Kick, transmit, send}
use phytium_sdk.Xmac.Tx.Words.{IsTxLayout}
use phytium_sdk.Xmac.Tx.Queue.{Holds, IsIdle, IsUsed, InFlight, total, IsTxRing}
use phytium_sdk.Xmac.Tx.Clean.{retired}
use phytium_sdk.Xmac.Tx.Write.{AreSmall}
use phytium_sdk.Xmac.Tx.Send.{transmit-IsTxRing, transmit-rest, transmit_marks}

abbrev pub segments : TxPacket → List Segment
segments p = segments_of (p.first_mbuf ∷ p.other_mbufs)

-- a packet that holds data, in mbufs that a descriptor can describe
pub record IsSendable (p : TxPacket) : Type 0 where
  pub some_data : 0 < length (segments p)
  pub small : AreSmall (segments p)

length-all_but_last :
    (m : TxMbuf) (ms : List TxMbuf)
    → length (segments_of (m ∷ ms)) ≤ suc (length (segments_of (all_but_last m ms)))
unfolding segments_of all_but_last
length-all_but_last m [] = ground arith
length-all_but_last m (n ∷ ms) = ground (arith, length-all_but_last n ms)

get_segs-segments :
    (p : TxPacket) {segs : List Segment}
    → get_segs_for_tx p.first_mbuf p.other_mbufs ≡ some segs
    → (segs ≡ segments p) × (length (segments p) ≤ 8)
get_segs-segments p e = ground (
  arith,
  get_segs_for_tx_lem p.first_mbuf p.other_mbufs,
  length-all_but_last p.first_mbuf p.other_mbufs,
)

-- what sending a packet does to the queue `q`: it adds `new`, which is one packet or none
pub record IsSent (reg : TxReg) (q new : List InFlight) (s t : TxSide) : Type 0 where
  pub ring : IsTxRing reg (q ++ new) t
  pub told : t.tapped ≡ retired new ++ s.tapped
  pub one : length new ≤ 1
  pub same_sendq : t.sendq ≡ s.sendq
  pub same_oactive : t.oactive ≡ s.oactive
  pub same_tail : t.tl_ptr ≡ s.tl_ptr
  pub unsent : (new ≡ []) ⊎ (has (t.txring s.hd_ptr).ctl reg.txbuf_used ≡ false)
  pub used_back : (p : ℕ) → IsUsed reg t.txring p → IsUsed reg s.txring p

module _ (reg : TxReg) (l : IsTxLayout reg) (kick : Kick) where
  transmit-IsSent :
      (p : TxPacket) (q : List InFlight) (s : TxSide) {segs : List Segment}
      → IsTxRing reg q s
      → total q < 496
      → IsSendable p
      → get_segs_for_tx p.first_mbuf p.other_mbufs ≡ some segs
      → IsSent reg q
          (record { packet = p.name; descs = length segs } ∷ [])
          s
          (transmit reg kick p.name segs s)
  unfolding transmit
  transmit-IsSent p q s {segs} r room ok e =
      let (same, few) = get_segs-segments p e in
      let packed = subst AreSmall (sym same) ok.small in
      let some_segs = subst (λ x. 0 < length x) (sym same) ok.some_data in
      let eight = subst (λ x. length x ≤ 8) (sym same) few in
      let (told, sendq, oactive) =
        transmit-rest reg l p.name segs q s r room packed some_segs eight kick in
      let (tail, unsent, back) =
        transmit_marks reg l p.name segs q s r room packed some_segs eight kick in
      record {
        ring = transmit-IsTxRing reg l p.name segs q s r room packed some_segs eight kick;
        told = told;
        one = omega arith;
        same_sendq = sendq;
        same_oactive = oactive;
        same_tail = tail;
        unsent = inr unsent;
        used_back = back;
      }

  -- a change of the counters and of what has been freed
  dropped-IsSent :
      (q : List InFlight) (s : TxSide) (fs : List ℕ) (defrags fails maps : ℕ)
      → IsTxRing reg q s
      → IsSent reg q [] s (record s {
        freed = fs;
        txdefrags = defrags;
        txdefragfails = fails;
        txdmamapfails = maps;
      })
  dropped-IsSent q s fs defrags fails maps r =
      let same = sym (append-nil q) in
      record {
        ring = record {
          holds = subst (λ x. Holds reg s.txring s.txring_m s.tl_ptr x s.hd_ptr) same r.holds;
          counted = subst (λ x. s.queued ≡ total x) same r.counted;
          room = subst (λ x. total x < 504) same r.room;
          tail = r.tail;
          idle_used =
              subst (λ x. (p : ℕ) → p < 512 → IsIdle p s.tl_ptr x → IsUsed reg s.txring p) same
                r.idle_used;
        };
        told = refl;
        one = omega arith;
        same_sendq = refl;
        same_oactive = refl;
        same_tail = refl;
        unsent = inl refl;
        used_back = λ p u. u;
      }

  IsTxRing-defrags :
      (q : List InFlight) (s : TxSide) (k : ℕ)
      → IsTxRing reg q s
      → IsTxRing reg q (record s { txdefrags = k })
  IsTxRing-defrags q s k r = record {
    holds = r.holds;
    counted = r.counted;
    room = r.room;
    tail = r.tail;
    idle_used = r.idle_used;
  }

  IsSent-defrags :
      (q : List InFlight) (s : TxSide) (k : ℕ) {new : List InFlight} {t : TxSide}
      → IsSent reg q new (record s { txdefrags = k }) t
      → IsSent reg q new s t
  IsSent-defrags q s k f = record {
    ring = f.ring;
    told = f.told;
    one = f.one;
    same_sendq = f.same_sendq;
    same_oactive = f.same_oactive;
    same_tail = f.same_tail;
    unsent = f.unsent;
    used_back = f.used_back;
  }

  module _ (m_defrag : TxPacket → Option TxPacket) (p : TxPacket) (s : TxSide) where
    send-whole :
        {segs : List Segment}
        → get_segs_for_tx p.first_mbuf p.other_mbufs ≡ some segs
        → send reg kick m_defrag p s ≡ transmit reg kick p.name segs s
    unfolding send
    send-whole e = ground arith

    send-undefragged :
        get_segs_for_tx p.first_mbuf p.other_mbufs ≡ none
        → m_defrag p ≡ none
        → send reg kick m_defrag p s
          ≡ record s { freed = p.name ∷ s.freed; txdefragfails = plus_one s.txdefragfails }
    unfolding send m_freem
    send-undefragged e e' = ground arith

    send-defragged :
        (d : TxPacket) {segs : List Segment}
        → get_segs_for_tx p.first_mbuf p.other_mbufs ≡ none
        → m_defrag p ≡ some d
        → get_segs_for_tx d.first_mbuf d.other_mbufs ≡ some segs
        → send reg kick m_defrag p s
          ≡ transmit reg kick d.name segs (record s { txdefrags = plus_one s.txdefrags })
    unfolding send
    send-defragged d e e' e'' = ground arith

    send-too_long :
        (d : TxPacket)
        → get_segs_for_tx p.first_mbuf p.other_mbufs ≡ none
        → m_defrag p ≡ some d
        → get_segs_for_tx d.first_mbuf d.other_mbufs ≡ none
        → send reg kick m_defrag p s ≡ record s {
          freed = d.name ∷ s.freed;
          txdefrags = plus_one s.txdefrags;
          txdmamapfails = plus_one s.txdmamapfails;
        }
    unfolding send m_freem
    send-too_long d e e' e'' = ground arith

  module _ (m_defrag : TxPacket → Option TxPacket)
      (keeps : (p d : TxPacket) → m_defrag p ≡ some d → IsSendable d) where
    -- One packet is put at the end of the queue, or dropped.
    pub send-IsSent :
        (p : TxPacket) (q : List InFlight) (s : TxSide)
        → IsTxRing reg q s
        → total q < 496
        → IsSendable p
        → (new : List InFlight) × IsSent reg q new s (send reg kick m_defrag p s)
    send-IsSent p q s r room ok = elim (Option-cases (get_segs_for_tx p.first_mbuf p.other_mbufs)) [
      | inr (segs, e) ↦ (
        record { packet = p.name; descs = length segs } ∷ [],
        subst (IsSent reg q (record { packet = p.name; descs = length segs } ∷ []) s)
            (sym (send-whole m_defrag p s e)) (transmit-IsSent p q s r room ok e),
      )
      | inl e ↦ elim (Option-cases (m_defrag p)) [
        | inl e' ↦ (
          [],
          subst (IsSent reg q [] s) (sym (send-undefragged m_defrag p s e e'))
              (dropped-IsSent q s _ _ _ _ r),
        )
        | inr (d, e') ↦ elim (Option-cases (get_segs_for_tx d.first_mbuf d.other_mbufs)) [
          | inl e'' ↦ (
            [],
            subst (IsSent reg q [] s) (sym (send-too_long m_defrag p s d e e' e''))
                (dropped-IsSent q s _ _ _ _ r),
          )
          | inr (segs, e'') ↦ (
            record { packet = d.name; descs = length segs } ∷ [],
            subst (IsSent reg q (record { packet = d.name; descs = length segs } ∷ []) s)
                (sym (send-defragged m_defrag p s d e e' e''))
                (IsSent-defrags q s (plus_one s.txdefrags) (
                  transmit-IsSent d q (record s { txdefrags = plus_one s.txdefrags })
                    (IsTxRing-defrags q s (plus_one s.txdefrags) r) room (keeps p d e') e'')),
          )
        ]
      ]
    ]
