-- ===== src/Xmac/Rx/Drain.antt =====
-- The loop that takes packets from the receive ring ends, with the packets that had arrived.
use phytium_sdk.Prelude.{
  sym, ◌%◌, ℕ, zero, suc, ◌+◌, ◌-◌, ◌≤◌, ◌<◌, ◌≡◌, inl, inr, refl, true, false, List, [], ◌∷◌, ◌++◌,
  some, length, length-append, arith, returns, Bool-cases, ◌∙◌, ap,
}
use phytium_sdk.Xmac.Softc.{XmacSoftc, Mbuf, Packet, XmacReg}
use phytium_sdk.Xmac.Rx.{is_filled, is_whole, packet_of, advance, count_error, recv_loop}
use mathlib.Core.List.{append_assoc, append-nil}
use phytium_sdk.Xmac.Rx.Arrivals.{arrivals, arrivals_of, packets_at, arrivals_of-advance}
use phytium_sdk.Xmac.Rx.Ring.{next_index-mod, IsRing, advance-IsRing}

arrivals_of-none :
    (reg : XmacReg) (taken : List Packet) (s : XmacSoftc)
    → taken ++ arrivals_of reg s s.rxring_queued ≡ taken
unfolding arrivals
arrivals_of-none reg taken s =
    let none_taken : s.rxring_queued - s.rxring_queued ≡ 0 = omega arith in
    ap (λ n. taken ++ arrivals reg s.rxcsum s.rxring s.rxring_m s.rxring_tl_ptr n) none_taken
    ∙ append-nil taken

module _ (reg : XmacReg) (s : XmacSoftc) (m : Mbuf) where
  packets_at-whole :
      s.rxring_m s.rxring_tl_ptr ≡ some m
      → is_whole reg (s.rxring s.rxring_tl_ptr).ctl ≡ true
      → packets_at reg s.rxcsum (s.rxring s.rxring_tl_ptr) (s.rxring_m s.rxring_tl_ptr)
        ≡ packet_of reg s.rxcsum (s.rxring s.rxring_tl_ptr).ctl m ∷ []
  unfolding packets_at
  packets_at-whole here whole = rw (here, whole) refl

  packets_at-broken :
      s.rxring_m s.rxring_tl_ptr ≡ some m
      → is_whole reg (s.rxring s.rxring_tl_ptr).ctl ≡ false
      → packets_at reg s.rxcsum (s.rxring s.rxring_tl_ptr) (s.rxring_m s.rxring_tl_ptr) ≡ []
  unfolding packets_at
  packets_at-broken here broken = rw (here, broken) refl

-- what the loop of `recv` keeps: each buffer taken was handed on or counted as an error
pub record IsDrained (reg : XmacReg) (taken : List Packet) (s : XmacSoftc)
    (o : List Packet × XmacSoftc) : Type 0 where
  pub ring : IsRing o.1
  pub drained : is_filled reg o.1 ≡ false
  pub fewer : o.1.rxring_queued ≤ s.rxring_queued
  pub arrived : o.0 ≡ taken ++ arrivals_of reg s o.1.rxring_queued
  pub same_ring : o.1.rxring ≡ s.rxring
  pub tail_at : o.1.rxring_tl_ptr ≡ (s.rxring_tl_ptr + (s.rxring_queued - o.1.rxring_queued)) % 512
  pub conserved :
      o.1.ierrors + length o.0 + o.1.rxring_queued ≡ s.ierrors + length taken + s.rxring_queued
  pub same_wanted : o.1.rxbufs ≡ s.rxbufs
  pub same_input : o.1.input ≡ s.input
  pub same_packets : o.1.ipackets ≡ s.ipackets

is_filled-queued : (reg : XmacReg) (s : XmacSoftc) → is_filled reg s ≡ true → 0 < s.rxring_queued
unfolding is_filled
is_filled-queued reg s e = ground arith

count_error-IsRing : (s : XmacSoftc) → IsRing s → IsRing (count_error s)
unfolding count_error
count_error-IsRing s f = record { tail = f.tail; fits = f.fits; head = f.head; held = f.held }

pub recv_loop-IsDrained :
    (reg : XmacReg) (fuel : ℕ) (taken : List Packet) (s : XmacSoftc)
    → s.rxring_queued < fuel
    → IsRing s
    → (o : List Packet × XmacSoftc) × (recv_loop reg fuel taken s ≡ returns o)
      × IsDrained reg taken s o
unfolding recv_loop advance count_error
recv_loop-IsDrained reg zero taken s enough f = absurd (omega arith)
recv_loop-IsDrained reg (suc fuel) taken s enough f = elim (Bool-cases (is_filled reg s)) [
  | inr none_left ↦ (
    (taken, s),
    ground arith,
    record {
      ring = f;
      drained = none_left;
      fewer = omega arith;
      arrived = sym (arrivals_of-none reg taken s);
      same_ring = refl;
      tail_at = omega (arith, f.tail);
      conserved = refl;
      same_wanted = refl;
      same_input = refl;
      same_packets = refl;
    },
  )
  | inl filled ↦
      let queued = is_filled-queued reg s filled in
      let (m, there) = f.held 0 queued in
      let here : s.rxring_m s.rxring_tl_ptr ≡ some m = ground (arith, there, f.tail) in
      let g = advance-IsRing s queued f in
      let p = packet_of reg s.rxcsum (s.rxring s.rxring_tl_ptr).ctl m in
      elim (Bool-cases (is_whole reg (s.rxring s.rxring_tl_ptr).ctl)) [
        | inl whole ↦
            let (o, e, d) =
              recv_loop-IsDrained reg fuel (taken ++ (p ∷ [])) (advance s) (omega arith) g in
            (
              o,
              ground (arith, e),
              record {
                ring = d.ring;
                drained = d.drained;
                fewer = omega (arith, d.fewer);
                arrived =
                    d.arrived
                    ∙ append_assoc taken (p ∷ []) _
                    ∙ ap (λ x. taken ++ x)
                        (sym (
                          arrivals_of-advance reg s o.1.rxring_queued f queued d.fewer
                            (packets_at-whole reg s m here whole)));
                same_ring = d.same_ring;
                tail_at = omega (arith, d.tail_at, d.fewer, next_index-mod s.rxring_tl_ptr f.tail);
                conserved = omega (arith, d.conserved, length-append taken (p ∷ []));
                same_wanted = d.same_wanted;
                same_input = d.same_input;
                same_packets = d.same_packets;
              },
            )
        | inr broken ↦
            let (o, e, d) =
              recv_loop-IsDrained reg fuel taken (count_error (advance s)) (omega arith)
                (count_error-IsRing (advance s) g) in
            (
              o,
              ground (arith, e),
              record {
                ring = d.ring;
                drained = d.drained;
                fewer = omega (arith, d.fewer);
                arrived =
                    d.arrived
                    ∙ ap (λ x. taken ++ x)
                        (sym (
                          arrivals_of-advance reg s o.1.rxring_queued f queued d.fewer
                            (packets_at-broken reg s m here broken)));
                same_ring = d.same_ring;
                tail_at = omega (arith, d.tail_at, d.fewer, next_index-mod s.rxring_tl_ptr f.tail);
                conserved = omega (arith, d.conserved);
                same_wanted = d.same_wanted;
                same_input = d.same_input;
                same_packets = d.same_packets;
              },
            )
      ]
]
