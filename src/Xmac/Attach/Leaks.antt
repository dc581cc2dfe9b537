-- ===== src/Xmac/Attach/Leaks.antt =====
-- What attach acquires, and what attach and detach leave acquired.
use phytium_sdk.Prelude.{
  ◌≡◌, Bool, true, false, not, ◌&&◌, List, [], ◌∷◌, ◌++◌, if◌then◌else◌, arith,
}
use phytium_sdk.Xmac.Attach.{
  Act, lock_init, lock_destroy, alloc_mem_res, alloc_msg_res, alloc_irq_res, alloc_ifnet,
  ether_attach, ether_detach, attach_mii, delete_miibus, create_desc_tag, create_mbuf_tag,
  destroy_desc_tag, destroy_mbuf_tag, alloc_rings, load_rings, unload_rings, free_rings, setup_intr,
  Pointers, AttachAnswers, setup_memory, free_memory, detach, attach_events, attach_rings,
  attach_interface, attach, call,
}

-- what the driver holds; `resources` is any resource of the bus
pub record Holds : Type 0 where
  pub mutex : Bool
  pub resources : Bool
  pub network : Bool
  pub in_stack : Bool
  pub mii_bus : Bool
  pub desc_tags : Bool
  pub mbuf_tags : Bool
  pub rings : Bool
  pub loaded : Bool
  pub handler : Bool

abbrev pub nothing : Holds
nothing = record {
  mutex = false;
  resources = false;
  network = false;
  in_stack = false;
  mii_bus = false;
  desc_tags = false;
  mbuf_tags = false;
  rings = false;
  loaded = false;
  handler = false;
}

-- No act of the driver releases the resources, the interface or the handler.
unfoldable pub perform : Act → Holds → Holds
perform lock_init h = record h { mutex = true }
perform lock_destroy h = record h { mutex = false }
perform alloc_mem_res h = record h { resources = true }
perform alloc_msg_res h = record h { resources = true }
perform alloc_irq_res h = record h { resources = true }
perform alloc_ifnet h = record h { network = true }
perform ether_attach h = record h { in_stack = true }
perform ether_detach h = record h { in_stack = false }
perform attach_mii h = record h { mii_bus = true }
perform delete_miibus h = record h { mii_bus = false }
perform create_desc_tag h = record h { desc_tags = true }
perform create_mbuf_tag h = record h { mbuf_tags = true }
perform destroy_desc_tag h = record h { desc_tags = false }
perform destroy_mbuf_tag h = record h { mbuf_tags = false }
perform alloc_rings h = record h { rings = true }
perform free_rings h = record h { rings = false }
perform load_rings h = record h { loaded = true }
perform unload_rings h = record h { loaded = false }
perform setup_intr h = record h { handler = true }
perform _ h = h

-- what is held after the acts
unfoldable pub replay : List Act → Holds → Holds
unfolding perform
replay [] h = h
replay (x ∷ xs) h = replay xs (perform x h)

-- the acts of an attach, and of a detach when it succeeds
unfoldable pub lifetime : Bool × List Act × Pointers → List Act
unfolding detach
lifetime r = if r.0 then r.1 ++ detach true r.2 else r.1

-- An attach that fails, at whichever call, and a complete attach with a later detach give back the
-- place in the network stack, the MII bus, the DMA tags and the memory of the rings, and the mutex
-- except where the registers cannot be had. They keep the resources and the network interface that
-- they acquired, and after an attach that succeeded the interrupt handler.
pub replay-lifetime :
    (a : AttachAnswers)
    → replay (lifetime (attach a)) nothing ≡ record nothing {
      mutex = not a.mem_res;
      resources = a.mem_res;
      network = a.mem_res && (a.irq_res && a.ifnet);
      handler = (attach a).0;
    }
unfolding lifetime attach attach_interface attach_rings attach_events setup_memory free_memory
    detach replay perform call
replay-lifetime a = ground arith
