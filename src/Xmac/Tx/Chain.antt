-- ===== src/Xmac/Tx/Chain.antt =====
-- drivers/fxmac/phytium_xmac.c: the DMA segments of a packet that is sent. The flush of the cache is
-- left out.

use phytium_sdk.Prelude.{ℕ, List, [], ◌∷◌, ◌++◌, Option, none, some, ltb, length, if◌then◌else◌}

-- an mbuf of the chain of a packet, and `bus_dma_segment_t`
pub record TxMbuf : Type 0 where
  pub m_data : ℕ
  pub m_len : ℕ

pub record Segment : Type 0 where
  pub ds_addr : ℕ
  pub ds_len : ℕ

-- `TX_MAX_DMA_SEGS`
abbrev pub tx_max_dma_segs : ℕ
tx_max_dma_segs = 8

unfoldable pub add_segment : TxMbuf → List Segment → List Segment
add_segment m segs =
    if ltb 0 m.m_len then segs ++ (record { ds_addr = m.m_data; ds_len = m.m_len } ∷ []) else segs

-- the loop, at the mbuf `m` with the rest of the chain; `none` is EFBIG
unfoldable pub segs_loop : List Segment → TxMbuf → List TxMbuf → Option (List Segment)
unfolding add_segment
segs_loop segs m [] = some (add_segment m segs)
segs_loop segs m (n ∷ ms) =
    let rest = segs_loop (add_segment m segs) n ms in
    if ltb (length (add_segment m segs)) tx_max_dma_segs then rest else none

unfoldable pub get_segs_for_tx : TxMbuf → List TxMbuf → Option (List Segment)
unfolding segs_loop
get_segs_for_tx m ms = segs_loop [] m ms
