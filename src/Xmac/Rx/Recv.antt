-- ===== src/Xmac/Rx/Recv.antt =====
-- Receiving: every packet that arrived is handed on or counted as an error.
use phytium_sdk.Prelude.{
  sym, bit_and, ◌%◌, ℕ, suc, ◌+◌, ◌-◌, ◌≤◌, ◌≡◌, ◌⊎◌, refl, false, List, [], ◌++◌, Option, none,
  length, arith, returns, ◌∙◌, ap,
}
use phytium_sdk.Xmac.Softc.{XmacSoftc, Mbuf, Packet, XmacReg}
use phytium_sdk.Xmac.Rx.{is_filled, recv, input_all}
use phytium_sdk.Xmac.Rx.Arrivals.{arrivals_of}
use phytium_sdk.Xmac.Rx.Ring.{IsRing}
use phytium_sdk.Xmac.Rx.Fill.{fill_rqueue-IsRefilled}
use phytium_sdk.Xmac.Rx.Drain.{recv_loop-IsDrained}

-- what `recv` leaves, when it handed on `taken` and left the last `left` buffers in the ring
pub record IsReceived (reg : XmacReg) (alloc : ℕ → Option Mbuf) (s t : XmacSoftc)
    (taken : List Packet) (left : ℕ) : Type 0 where
  pub fewer : left ≤ s.rxring_queued
  pub arrived : taken ≡ arrivals_of reg s left
  pub exhausted :
      (left ≡ 0)
      ⊎ (bit_and (s.rxring ((s.rxring_tl_ptr + (s.rxring_queued - left)) % 512)).addr reg.rxbuf_new
          ≡ 0)
  pub ring : IsRing t
  pub refilled : (s.rxbufs ≤ t.rxring_queued) ⊎ ((k : ℕ) × (alloc k ≡ none))
  pub same_wanted : t.rxbufs ≡ s.rxbufs
  pub told : t.input ≡ s.input ++ taken
  pub counted : t.ipackets ≡ s.ipackets + length taken
  pub errors_counted : t.ierrors + length taken + left ≡ s.ierrors + s.rxring_queued

input_all-IsRing : (taken : List Packet) (s : XmacSoftc) → IsRing s → IsRing (input_all taken s)
unfolding input_all
input_all-IsRing taken s f = record { tail = f.tail; fits = f.fits; head = f.head; held = f.held }

left_unfilled :
    (reg : XmacReg) (s u : XmacSoftc)
    → u.rxring ≡ s.rxring
    → u.rxring_tl_ptr ≡ (s.rxring_tl_ptr + (s.rxring_queued - u.rxring_queued)) % 512
    → is_filled reg u ≡ false
    → (u.rxring_queued ≡ 0)
      ⊎ (bit_and
            (s.rxring ((s.rxring_tl_ptr + (s.rxring_queued - u.rxring_queued)) % 512)).addr
            reg.rxbuf_new
          ≡ 0)
unfolding is_filled
left_unfilled reg s u ring tail drained = rw (sym tail, sym ring) (ground arith)

-- Receiving always ends and never reads a NULL mbuf. It hands to the stack, in their order, the
-- whole packets of the slots from the tail up to the first that the device has not filled, or of all
-- the buffers queued; the other buffers taken are counted as errors. The ring is in order again, and
-- refilled unless an mbuf could not be allocated. The ring is in order before, and at most 512
-- buffers are wanted.
pub recv-IsReceived :
    (reg : XmacReg) (wrap : ℕ) (alloc : ℕ → Option Mbuf) (s : XmacSoftc)
    → s.rxbufs ≤ 512
    → IsRing s
    → (t : XmacSoftc) × (recv reg wrap alloc s ≡ returns t)
      × ((taken : List Packet) × (left : ℕ) × IsReceived reg alloc s t taken left)
unfolding recv input_all
recv-IsReceived reg wrap alloc s bounded f =
    let (o, e, d) = recv_loop-IsDrained reg (suc s.rxring_queued) [] s (omega arith) f in
    let (t, e', g) = fill_rqueue-IsRefilled wrap alloc o.1 (omega (arith, d.same_wanted)) d.ring in
    (
      input_all o.0 t,
      rw (e, e') refl,
      (
        o.0,
        o.1.rxring_queued,
        record {
          fewer = d.fewer;
          arrived = d.arrived;
          exhausted = left_unfilled reg s o.1 d.same_ring d.tail_at d.drained;
          ring = input_all-IsRing o.0 t g.ring;
          refilled = rw d.same_wanted at g.enough;
          same_wanted = g.same_wanted ∙ d.same_wanted;
          told = ap (λ x. x ++ o.0) (g.same_input ∙ d.same_input);
          counted = ap (λ x. x + length o.0) (g.same_packets ∙ d.same_packets);
          errors_counted = omega (arith, d.conserved, g.same_errors);
        },
      ),
    )
