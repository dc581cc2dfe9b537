-- ===== src/Xmac/Rx/Fill.antt =====
-- Refilling the receive ring ends and keeps the ring in order.
use phytium_sdk.Prelude.{
  ℕ, zero, suc, ◌-◌, ◌≤◌, ◌<◌, ◌≡◌, ◌⊎◌, inl, inr, refl, Option, none, arith, ltb, returns,
  Option-cases, Bool-cases,
}
use phytium_sdk.Xmac.Softc.{XmacSoftc, Mbuf}
use phytium_sdk.Xmac.Rx.{queue_buffer, fill_loop, fill_rqueue}
use phytium_sdk.Xmac.Rx.Ring.{IsRing, queue_buffer-IsRing}

-- what `fill_loop` keeps and reaches
pub record IsRefilled (alloc : ℕ → Option Mbuf) (s t : XmacSoftc) : Type 0 where
  pub ring : IsRing t
  pub enough : (s.rxbufs ≤ t.rxring_queued) ⊎ ((k : ℕ) × (alloc k ≡ none))
  pub more : s.rxring_queued ≤ t.rxring_queued
  pub same_errors : t.ierrors ≡ s.ierrors
  pub same_input : t.input ≡ s.input
  pub same_packets : t.ipackets ≡ s.ipackets
  pub same_wanted : t.rxbufs ≡ s.rxbufs

fill_loop-IsRefilled :
    (wrap fuel : ℕ) (alloc : ℕ → Option Mbuf) (k : ℕ) (s : XmacSoftc)
    → s.rxbufs ≤ 512
    → s.rxbufs - s.rxring_queued < fuel
    → IsRing s
    → (t : XmacSoftc) × (fill_loop wrap fuel alloc k s ≡ returns t) × IsRefilled alloc s t
unfolding fill_loop queue_buffer
fill_loop-IsRefilled wrap zero alloc k s bounded enough f = absurd (omega arith)
fill_loop-IsRefilled wrap (suc fuel) alloc k s bounded enough f =
    elim (Bool-cases (ltb s.rxring_queued s.rxbufs)) [
      | inr full ↦ (
        s,
        ground arith,
        record {
          ring = f;
          enough = inl (ground arith);
          more = omega arith;
          same_errors = refl;
          same_input = refl;
          same_packets = refl;
          same_wanted = refl;
        },
      )
      | inl room ↦ elim (Option-cases (alloc k)) [
        | inl empty ↦ (
          s,
          ground arith,
          record {
            ring = f;
            enough = inr (k, empty);
            more = omega arith;
            same_errors = refl;
            same_input = refl;
            same_packets = refl;
            same_wanted = refl;
          },
        )
        | inr (m, got) ↦
            let (t, e, g) =
              fill_loop-IsRefilled wrap fuel alloc (suc k) (queue_buffer wrap m s) bounded
                (ground arith) (queue_buffer-IsRing wrap m s (ground arith) f) in
            (
              t,
              ground (arith, e),
              record {
                ring = g.ring;
                enough = g.enough;
                more = omega (arith, g.more);
                same_errors = g.same_errors;
                same_input = g.same_input;
                same_packets = g.same_packets;
                same_wanted = g.same_wanted;
              },
            )
      ]
    ]

-- Filling the receive ring always ends and keeps the ring in order; it stops with as many buffers
-- queued as are wanted, unless no more mbufs could be allocated. At most 512 are wanted.
pub fill_rqueue-IsRefilled :
    (wrap : ℕ) (alloc : ℕ → Option Mbuf) (s : XmacSoftc)
    → s.rxbufs ≤ 512
    → IsRing s
    → (t : XmacSoftc) × (fill_rqueue wrap alloc s ≡ returns t) × IsRefilled alloc s t
unfolding fill_rqueue
fill_rqueue-IsRefilled wrap alloc s bounded f =
    fill_loop-IsRefilled wrap (suc (s.rxbufs - s.rxring_queued)) alloc 0 s bounded (omega arith) f
