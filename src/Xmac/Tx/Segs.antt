-- ===== src/Xmac/Tx/Segs.antt =====
-- When a packet fits the segments of one transmission, and what they are.
use mathlib.Core.List.{append_assoc, append-nil}
use phytium_sdk.Prelude.{
  ℕ, ◌+◌, ◌<◌, ◌≡◌, refl, ap, ◌∙◌, sym, true, false, List, [], ◌∷◌, ◌++◌, none, some, ltb, length,
  length-append, if◌then◌else◌, arith, Bool-cases, inl, inr,
}
use phytium_sdk.Xmac.Tx.Chain.{
  TxMbuf, Segment, tx_max_dma_segs, add_segment, segs_loop, get_segs_for_tx,
}

-- the segments of the mbufs that hold data, in their order
unfoldable pub segments_of : List TxMbuf → List Segment
segments_of [] = []
segments_of (m ∷ ms) =
    let rest = segments_of ms in
    if ltb 0 m.m_len then record { ds_addr = m.m_data; ds_len = m.m_len } ∷ rest else rest

-- the mbufs of a chain but its last
unfoldable pub all_but_last : TxMbuf → List TxMbuf → List TxMbuf
all_but_last m [] = []
all_but_last m (n ∷ ms) = m ∷ all_but_last n ms

add_segment-append :
    (m : TxMbuf) (segs : List Segment) (ms : List TxMbuf)
    → add_segment m segs ++ segments_of ms ≡ segs ++ segments_of (m ∷ ms)
unfolding add_segment segments_of
add_segment-append m segs ms = elim (Bool-cases (ltb 0 m.m_len)) [
  | inl full ↦
      simp full
        (append_assoc segs (record { ds_addr = m.m_data; ds_len = m.m_len } ∷ []) (segments_of ms))
  | inr empty ↦ simp empty refl
]

nothing_left : length (segments_of []) ≡ 0
unfolding segments_of
nothing_left = refl

add_segment-last :
    (m : TxMbuf) (segs : List Segment) → add_segment m segs ≡ segs ++ segments_of (m ∷ [])
unfolding segments_of
add_segment-last m segs = sym (append-nil (add_segment m segs)) ∙ add_segment-append m segs []

zero_add : (n : ℕ) → 0 + n ≡ n
zero_add n = omega arith

length-add_segment :
    (m : TxMbuf) (segs : List Segment) (ms : List TxMbuf)
    → length (add_segment m segs) + length (segments_of ms)
      ≡ length segs + length (segments_of (m ∷ ms))
length-add_segment m segs ms =
    sym (length-append (add_segment m segs) (segments_of ms))
    ∙ ap length (add_segment-append m segs ms)
    ∙ length-append segs (segments_of (m ∷ ms))

segs_loop_lem :
    (segs : List Segment) (m : TxMbuf) (ms : List TxMbuf)
    → length segs < 8
    → segs_loop segs m ms ≡ (
        if ltb (length segs + length (segments_of (all_but_last m ms))) tx_max_dma_segs
        then some (segs ++ segments_of (m ∷ ms))
        else none)
unfolding segs_loop all_but_last
segs_loop_lem segs m [] room =
    let fits : ltb (length segs + length (segments_of [])) tx_max_dma_segs ≡ true =
      ground (arith, room, nothing_left) in
    simp fits (ap some (add_segment-last m segs))
segs_loop_lem segs m (n ∷ ms) room =
    let before = all_but_last n ms in
    let added = add_segment m segs in
    elim (Bool-cases (ltb (length added) tx_max_dma_segs)) [
      | inl more ↦ simp more (
          segs_loop_lem added n ms (ground (arith, more))
          ∙ ap (λ k. if ltb k tx_max_dma_segs then some (added ++ segments_of (n ∷ ms)) else none)
              (length-add_segment m segs before)
          ∙ ap
              (λ x.
                if ltb (length segs + length (segments_of (m ∷ before))) tx_max_dma_segs
                then some x
                else none)
              (add_segment-append m segs (n ∷ ms)))
      | inr full ↦
          let over : ltb (length segs + length (segments_of (m ∷ before))) tx_max_dma_segs ≡ false =
            ground (arith, full, length-add_segment m segs before) in
          simp (full, over) refl
    ]

-- A packet is split exactly when the mbufs before its last hold data in less than 8 of them; its
-- segments are then the mbufs that hold data, in their order. Otherwise the result is EFBIG.
pub get_segs_for_tx_lem :
    (m : TxMbuf) (ms : List TxMbuf)
    → get_segs_for_tx m ms ≡ (
        if ltb (length (segments_of (all_but_last m ms))) 8
        then some (segments_of (m ∷ ms))
        else none)
unfolding get_segs_for_tx
get_segs_for_tx_lem m ms =
    segs_loop_lem [] m ms (omega arith)
    ∙ ap (λ k. if ltb k 8 then some (segments_of (m ∷ ms)) else none)
        (zero_add (length (segments_of (all_but_last m ms))))
