-- ===== src/XmacV2/Attach.antt =====
-- drivers/fxmac_v2_0/phytium_xmac_v2.c: attach and detach of the device, with the memory of
-- `phytium_xmac_msg_setup_descs`. The parts that are those of the first driver are shared with it.
pub mod Leaks
use phytium_sdk.Prelude.{Bool, true, false, not, List, [], ◌∷◌, ◌++◌, if◌then◌else◌}
use phytium_sdk.Xmac.Attach.{
  Act, lock_init, alloc_mem_res, alloc_msg_res, alloc_irq_res, alloc_ifnet, set_up_ifnet,
  cfg_initialize, init_ring, get_feature_all, reset, attach_mii, interface_config, refused, call,
  Pointers, cleared, AttachAnswers, setup_memory, detach, attach_events,
}

-- what the calls of attach answer; `msg_res` is that for the memory of the messages
pub record MsgAnswers : Type 0 where
  pub msg_res : Bool
  pub others : AttachAnswers

unfoldable pub msg_setup_memory : AttachAnswers → Pointers → Bool × List Act × Pointers
msg_setup_memory a p = setup_memory a p

unfoldable pub msg_detach : Bool → Pointers → List Act
msg_detach is_attached p = detach is_attached p

unfoldable pub msg_attach_events : AttachAnswers → Pointers → Bool × List Act × Pointers
msg_attach_events a p = attach_events a p

-- after the MII bus has been attached; the MAC address is a constant
unfoldable pub msg_attach_rings : AttachAnswers → Bool × List Act × Pointers
unfolding msg_setup_memory msg_attach_events msg_detach
msg_attach_rings a =
    let (ready, acts, p) = msg_setup_memory a (record cleared { miibus = a.mii }) in
    if ready
    then (let (good, later, q) = msg_attach_events a p in (good, acts ++ later, q))
    else (false, acts ++ msg_detach false p, p)

-- after the network interface has been allocated
unfoldable pub msg_attach_interface : AttachAnswers → Bool × List Act × Pointers
unfolding msg_attach_rings call
msg_attach_interface a =
    let begun = set_up_ifnet ∷ cfg_initialize ∷ init_ring ∷ get_feature_all ∷ reset ∷ [] in
    let (good, later, p) = msg_attach_rings a in
    (good, begun ++ call a.mii attach_mii ∷ interface_config ∷ later, p)

-- false is the return of an error
unfoldable pub msg_attach : MsgAnswers → Bool × List Act × Pointers
unfolding msg_attach_interface msg_detach
msg_attach m =
    let a = m.others in
    let memories = lock_init ∷ alloc_mem_res ∷ alloc_msg_res ∷ [] in
    if not a.mem_res
    then (false, lock_init ∷ refused alloc_mem_res ∷ [], cleared)
    else if not m.msg_res
    then (false, lock_init ∷ alloc_mem_res ∷ refused alloc_msg_res ∷ [], cleared)
    else if not a.irq_res
    then (false, memories ++ refused alloc_irq_res ∷ msg_detach false cleared, cleared)
    else if not a.ifnet
    then (
      false,
      memories ++ alloc_irq_res ∷ refused alloc_ifnet ∷ msg_detach false cleared,
      cleared,
    )
    else (let (good, later, p) = msg_attach_interface a in
        (good, memories ++ alloc_irq_res ∷ alloc_ifnet ∷ later, p))
