-- ===== src/XmacV2/Attach/Leaks.antt =====
-- What attach and detach of the second driver leave acquired.
use phytium_sdk.Prelude.{◌≡◌, not, ◌&&◌, arith}
use phytium_sdk.Xmac.Attach.{setup_memory, free_memory, detach, attach_events, call}
use phytium_sdk.Xmac.Attach.Leaks.{nothing, perform, replay, lifetime}
use phytium_sdk.XmacV2.Attach.{
  MsgAnswers, msg_attach_interface, msg_detach, msg_attach, msg_attach_rings, msg_setup_memory,
  msg_attach_events,
}

-- An attach that fails, at whichever call, and a complete attach with a later detach give back the
-- place in the network stack, the MII bus, the DMA tags and the memory of the rings, and the mutex
-- except where the registers or the memory of the messages cannot be had. They keep the resources and
-- the network interface that they acquired, and after an attach that succeeded the interrupt handler,
-- which can still run.
pub replay-msg_lifetime :
    (m : MsgAnswers)
    → replay (lifetime (msg_attach m)) nothing ≡ record nothing {
      mutex = not (m.others.mem_res && m.msg_res);
      resources = m.others.mem_res;
      network = m.others.mem_res && (m.msg_res && (m.others.irq_res && m.others.ifnet));
      handler = (msg_attach m).0;
    }
unfolding lifetime msg_attach msg_attach_interface msg_detach msg_attach_rings msg_attach_events
    msg_setup_memory attach_events setup_memory free_memory detach replay perform call
replay-msg_lifetime m = ground arith
