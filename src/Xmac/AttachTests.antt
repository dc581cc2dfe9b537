-- ===== src/Xmac/AttachTests.antt =====
-- Attach and detach at concrete answers.
use phytium_sdk.Prelude.{◌≡◌, true, false}
use phytium_sdk.Xmac.Attach.{
  AttachAnswers, setup_memory, attach_events, attach_rings, attach_interface, attach,
}
use phytium_sdk.Xmac.Attach.Leaks.{replay, nothing, lifetime, replay-lifetime}

-- each call succeeds
abbrev pub good : AttachAnswers
good = record {
  mem_res = true;
  irq_res = true;
  ifnet = true;
  mii = true;
  desc_tag = true;
  mbuf_tag = true;
  ring_memory = true;
  ring_loaded = true;
  intr = true;
}

replay-lifetime_example :
    replay (lifetime (attach good)) nothing
    ≡ record nothing { mutex = false; resources = true; network = true; handler = true }
unfolding attach attach_interface attach_rings attach_events setup_memory
replay-lifetime_example = replay-lifetime good
