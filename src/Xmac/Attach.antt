-- ===== src/Xmac/Attach.antt =====
-- drivers/fxmac/phytium_xmac.c: attach and detach of the device, with the memory of
-- `phytium_xmac_setup_descs`. What the driver asks of the kernel is a list of acts, in their order.
pub mod Leaks
use phytium_sdk.Prelude.{Bool, true, false, not, List, [], ◌∷◌, ◌++◌, if◌then◌else◌}

pub data Act : Type 0 where
  lock_init lock_destroy : Act
  alloc_mem_res alloc_msg_res alloc_irq_res : Act
  alloc_ifnet set_up_ifnet ether_attach ether_detach set_down : Act
  reset read_mac attach_mii delete_miibus : Act
  create_desc_tag create_mbuf_tag destroy_desc_tag destroy_mbuf_tag : Act
  alloc_rings load_rings fill_rings unload_rings free_rings : Act
  callout_init callout_drain : Act
  setup_intr stop generic_detach : Act
  -- the calls of the FXmacMsg layer, which the second driver makes
  cfg_initialize init_ring get_feature_all interface_config : Act
  -- a call that failed
  refused : Act → Act

-- the call, as it was answered
unfoldable pub call : Bool → Act → Act
call b x = if b then x else refused x

-- the pointers of the softc that detach tests: true is not NULL, or not 0
pub record Pointers : Type 0 where
  pub miibus : Bool
  pub rxring : Bool
  pub txring : Bool
  pub physaddr : Bool
  pub desc_dma_tag : Bool
  pub mbuf_dma_tag : Bool

-- the softc as the kernel gives it
abbrev pub cleared : Pointers
cleared = record {
  miibus = false;
  rxring = false;
  txring = false;
  physaddr = false;
  desc_dma_tag = false;
  mbuf_dma_tag = false;
}

-- what the calls of attach answer: true is success
pub record AttachAnswers : Type 0 where
  pub mem_res : Bool
  pub irq_res : Bool
  pub ifnet : Bool
  pub mii : Bool
  pub desc_tag : Bool
  pub mbuf_tag : Bool
  pub ring_memory : Bool
  pub ring_loaded : Bool
  pub intr : Bool

-- the memory of the rings; false is the return of an error
unfoldable pub setup_memory : AttachAnswers → Pointers → Bool × List Act × Pointers
setup_memory a p =
    let q = record p { desc_dma_tag = true } in
    let r = record q { mbuf_dma_tag = true } in
    let s = record r { rxring = true } in
    if not a.desc_tag
    then (false, refused create_desc_tag ∷ [], p)
    else if not a.mbuf_tag
    then (false, create_desc_tag ∷ refused create_mbuf_tag ∷ [], q)
    else if not a.ring_memory
    then (false, create_desc_tag ∷ create_mbuf_tag ∷ refused alloc_rings ∷ [], r)
    else if not a.ring_loaded
    then (false, create_desc_tag ∷ create_mbuf_tag ∷ alloc_rings ∷ refused load_rings ∷ [], s)
    else (
      true,
      create_desc_tag ∷ create_mbuf_tag ∷ alloc_rings ∷ load_rings ∷ fill_rings ∷ [],
      record s { physaddr = true; txring = true },
    )

-- the rings are given back; the transmit ring lies in the memory of the receive ring
unfoldable pub free_memory : Pointers → List Act
free_memory p =
    (if p.rxring
      then (if p.physaddr then unload_rings ∷ [] else []) ++ free_rings ∷ []
      else if p.txring
      then (if p.physaddr then unload_rings ∷ [] else []) ++ free_rings ∷ []
      else [])
    ++ (if p.desc_dma_tag then destroy_desc_tag ∷ [] else [])
    ++ (if p.mbuf_dma_tag then destroy_mbuf_tag ∷ [] else [])

-- `is_attached` is `device_is_attached(dev)`
unfoldable pub detach : Bool → Pointers → List Act
unfolding free_memory
detach is_attached p =
    (if is_attached then stop ∷ callout_drain ∷ set_down ∷ ether_detach ∷ [] else [])
    ++ (if p.miibus then delete_miibus ∷ [] else [])
    ++ free_memory p
    ++ generic_detach ∷ lock_destroy ∷ []

-- the callout, the place in the network stack and the interrupt
unfoldable pub attach_events : AttachAnswers → Pointers → Bool × List Act × Pointers
unfolding detach
attach_events a p = if a.intr then (true, callout_init ∷ ether_attach ∷ setup_intr ∷ [], p) else (
  false,
  callout_init ∷ ether_attach ∷ refused setup_intr ∷ ether_detach ∷ detach false p,
  p,
)

-- after the MII bus has been attached
unfoldable pub attach_rings : AttachAnswers → Bool × List Act × Pointers
unfolding setup_memory attach_events detach
attach_rings a =
    let (ready, acts, p) = setup_memory a (record cleared { miibus = a.mii }) in
    if ready
    then (let (good, later, q) = attach_events a p in (good, acts ++ read_mac ∷ later, q))
    else (false, acts ++ detach false p, p)

-- after the network interface has been allocated
unfoldable pub attach_interface : AttachAnswers → Bool × List Act × Pointers
unfolding attach_rings call
attach_interface a =
    let (good, later, p) = attach_rings a in
    (good, set_up_ifnet ∷ reset ∷ call a.mii attach_mii ∷ later, p)

-- false is the return of an error
unfoldable pub attach : AttachAnswers → Bool × List Act × Pointers
unfolding attach_interface detach
attach a =
    let resources = lock_init ∷ alloc_mem_res ∷ alloc_irq_res ∷ [] in
    if not a.mem_res
    then (false, lock_init ∷ refused alloc_mem_res ∷ [], cleared)
    else if not a.irq_res
    then (false, lock_init ∷ alloc_mem_res ∷ refused alloc_irq_res ∷ detach false cleared, cleared)
    else if not a.ifnet
    then (false, resources ++ refused alloc_ifnet ∷ detach false cleared, cleared)
    else (let (good, later, p) = attach_interface a in (good, resources ++ alloc_ifnet ∷ later, p))
