-- ===== src/Xmac/Rx/Ring.antt =====
-- The receive ring keeps its order.
use phytium_sdk.Prelude.{
  ℕ, suc, ◌+◌, ◌%◌, ◌≤◌, ◌<◌, ◌≡◌, ◌≢◌, inl, inr, refl, some, arith, ltb, Bool-cases,
}
use phytium_sdk.Xmac.Softc.{XmacSoftc, Mbuf, XmacReg}
use phytium_sdk.Xmac.Rx.{setup_rx_descs, next_index, queue_buffer, advance}

-- The buffers queued are the ones from the tail to the head, and there is an mbuf for each of them.
pub record IsRing (s : XmacSoftc) : Type 0 where
  pub tail : s.rxring_tl_ptr < 512
  pub fits : s.rxring_queued ≤ 512
  pub head : s.rxring_hd_ptr ≡ (s.rxring_tl_ptr + s.rxring_queued) % 512
  pub held :
      (j : ℕ)
      → j < s.rxring_queued
      → (m : Mbuf) × (s.rxring_m ((s.rxring_tl_ptr + j) % 512) ≡ some m)

pub setup_rx_descs-IsRing : (reg : XmacReg) (s : XmacSoftc) → IsRing (setup_rx_descs reg s)
unfolding setup_rx_descs
setup_rx_descs-IsRing reg s = record {
  tail = omega arith;
  fits = omega arith;
  head = refl;
  held = λ j k. absurd (omega arith);
}

pub next_index-mod : (i : ℕ) → i < 512 → next_index i ≡ (i + 1) % 512
unfolding next_index
next_index-mod i k = ground arith

pub queue_buffer-IsRing :
    (wrap : ℕ) (m : Mbuf) (s : XmacSoftc)
    → s.rxring_queued < 512
    → IsRing s
    → IsRing (queue_buffer wrap m s)
unfolding queue_buffer
queue_buffer-IsRing wrap m s room f = record {
  tail = f.tail;
  fits = omega arith;
  head = omega (arith, f.head, next_index-mod s.rxring_hd_ptr (omega (arith, f.head)));
  held = λ j k. elim (Bool-cases (ltb j s.rxring_queued)) [
    | inl old ↦ (
      (f.held j (ground arith)).0,
      ground (arith, f.head, f.tail, f.fits, (f.held j (ground arith)).1),
    )
    | inr new ↦ (m, ground (arith, f.head, f.tail, f.fits))
  ];
}

pub advance-IsRing : (s : XmacSoftc) → 0 < s.rxring_queued → IsRing s → IsRing (advance s)
unfolding advance
advance-IsRing s some_left f = record {
  tail = omega (arith, next_index-mod s.rxring_tl_ptr f.tail);
  fits = omega (arith, f.fits);
  head = omega (arith, f.head, next_index-mod s.rxring_tl_ptr f.tail);
  held = λ j k. (
    (f.held (suc j) (omega arith)).0,
    (let moved : (next_index s.rxring_tl_ptr + j) % 512 ≡ (s.rxring_tl_ptr + suc j) % 512 =
          omega (arith, next_index-mod s.rxring_tl_ptr f.tail) in
        let other : (s.rxring_tl_ptr + suc j) % 512 ≢ s.rxring_tl_ptr =
          omega (arith, f.tail, f.fits) in
        rw moved (ground (arith, other, (f.held (suc j) (omega arith)).1))),
  );
}
