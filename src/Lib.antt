-- ===== src/Lib.antt =====
-- Verification library of the drivers of the Phytium RTEMS SDK.
--
-- The SDK's own code is a set of RTEMS/FreeBSD device drivers under drivers/. Each driver is a record
-- of state (the C structure with the objects of the kernel that it points to), one function for each
-- C function, and theorems below the module that defines them.
--
-- The SDIF v2 driver (drivers/fsdif_v2_0) sends SD/MMC commands to a firmware through the FSdifMsg
-- layer, which is not in the repository:
--   SdifV2/Msg       the structures and macros of that layer (the macros are the fields of `Header`)
--   SdifV2/Command   sdif_v2_prepare_*_command_flags, sdif_v2_prepare_raw_command and
--                    sdif_v2_prepare_{data,command}_transfer of phytium_sdif_v2_wrapper.c
--   SdifV2/Ios       sdif_v2_prepare_update_{ios,voltage} of phytium_sdif_v2_wrapper.c
--   SdifV2/Softc     struct phytium_sdif_v2_softc of phytium_sdif_v2_var.h
--   SdifV2/Finish    the callbacks, sdif_v2_finish_command and phytium_sdif_v2_timeout of
--                    phytium_sdif_v2.c
--   SdifV2/Poll      sdif_v2_polling_card_busy and sdif_v2_polling_request_done
--   SdifV2/Request   phytium_sdif_v2_request with sdif_v2_pre_request, sdif_v2_set_block_count and
--                    sdif_v2_dma_prepare
--   SdifV2/Host      phytium_sdif_v2_{read,write}_ivar, phytium_sdif_v2_update_ios and
--                    phytium_sdif_v2_{acquire,release}_host
--   SdifV2/Card      sdif_v2_card_task
--   SdifV2/Attach    phytium_sdif_v2_{attach,detach}, the initial settings of the wrapper and
--                    sdif_v2_dma_setup
-- The SDIF v1 driver (drivers/fsdif/phytium_sdif.c) drives the same controller by its registers, through
-- the FSdif layer, which is not in the repository either:
--   SdifV1/Softc     struct phytium_sdif_softc of phytium_sdif_var.h
--   SdifV1/Command   sdif_prepare_raw_cmd
--   SdifV1/Finish    the callbacks, sdif_finish_command and phytium_sdif_timeout
--   SdifV1/Poll      sdif_polling_request_done
--   SdifV1/Request   phytium_sdif_request with sdif_pre_request, sdif_set_block_count and
--                    sdif_dma_prepare
--   SdifV1/Host      phytium_sdif_{read,write}_ivar, phytium_sdif_update_ios with its timing tables, and
--                    phytium_sdif_{acquire,release}_host
--   SdifV1/Card      sdif_card_task
--   SdifV1/Attach    phytium_sdif_{attach,detach} and sdif_dma_setup
-- The XMAC driver (drivers/fxmac/phytium_xmac.c):
--   Xmac/Softc       the receive side and the link of struct phytium_xmac_softc
--   Xmac/Rx          phytium_xmac_fill_rqueue, phytium_xmac_recv and the receive ring of
--                    phytium_xmac_setup_descs
--   Xmac/Tx/Chain    phytium_xmac_get_segs_for_tx
--   Xmac/Tx/Ring     the transmit side of struct phytium_xmac_softc and phytium_xmac_clean_tx
--   Xmac/Tx/Output   phytium_xmac_start_locked; the other modules of Xmac/Tx prove that the ring is a
--                    queue (Queue), step by step
--   Xmac/If          the interface: phytium_xmac_mac_hash (Hash), phytium_xmac_rx_filter (Filter),
--                    phytium_xmac_get_mac (Mac), the whole of struct phytium_xmac_softc (Driver),
--                    phytium_xmac_{reset,config,init_locked,stop} (Clear, Start),
--                    phytium_xmac_intr (Intr), phytium_xmac_ioctl (Ioctl) and
--                    phytium_xmac_{tick,ifmedia_upd,child_detached,miibus_statchg} (Callbacks)
--   Xmac/Attach      phytium_xmac_{attach,detach} and the memory of phytium_xmac_setup_descs
--   Xmac/Mdio        phytium_xmac_miibus_{readreg,writereg}
--   Xmac/Media       phytium_xmac_mediachange, phytium_xmac_{1p0,2p0}_set_ref_clk and
--                    phytium_xmac_set_high_speed_config
-- The second XMAC driver (drivers/fxmac_v2_0/phytium_xmac_v2.c) has the same rings, and configures the
-- controller by messages to its firmware, through the FXmacMsg layer, which is not in the repository:
--   XmacV2/Driver    struct phytium_xmac_msg_softc and the calls of that layer
--   XmacV2/Rings     phytium_xmac_msg_{fill_rqueue,recv,clean_tx,get_segs_for_tx,start_locked,mac_hash,
--                    hash_maddr}, which are those of the first driver with other masks
--   XmacV2/Filter    phytium_xmac_msg_{rx_filter,mediachange} and the methods of the MII bus
--   XmacV2/Start     phytium_xmac_msg_{reset,config,init_locked,stop} and the rings of
--                    phytium_xmac_msg_setup_descs
--   XmacV2/Intr      phytium_xmac_msg_intr
--   XmacV2/Ioctl     phytium_xmac_msg_ioctl
--   XmacV2/Callbacks phytium_xmac_msg_{tick,ifmedia_upd,child_detached}
--   XmacV2/Attach    phytium_xmac_msg_{attach,detach} and the memory of
--                    phytium_xmac_msg_setup_descs
--
-- In either SDIF driver the upper layer calls Request, whose commands Command describes; the
-- interrupts of the firmware reach Finish, which tells the upper layer that a request is over; Poll
-- waits for either. In either XMAC driver recv refills the ring with fill_rqueue; Mdio and Media
-- serve the PHY. If joins both rings: the interrupt handler receives, cleans and transmits, and
-- ioctl starts and stops the interface.
--
-- Conventions. `panic` and a NULL dereference are `panics` of `Outcome`, or `none` where nothing
-- else can go wrong. The answers of calls that leave the repository are arguments. A request of the
-- upper layer is named by the address of its command, and the store of commands is a function. The
-- calls that a driver makes are a list of effects, newest first. Polling loops run on fuel: timeout
-- / 100 + 2 rounds for the card and timeout + 2 for a request, one more than the loops' own timeouts
-- allow; an MDIO wait on its 201 polls; the loops of the rings on one round more than there are
-- buffers to take or to add, or descriptors in flight; the loops of the hash on one round more than
-- their bounds give. Each part of the first XMAC driver lists its own writes of registers, newest
-- first; the order between the lists is not kept. Prelude holds the shared names, Bits the laws of
-- single bits of a word.
--
-- Not modelled: the parts under #ifndef __rtems__, MMCCAM, DDB and DEBUG; the device tree glue and
-- the probes; debug printf, which is a copy of another project's library; the examples and the build
-- scripts.
pub mod Prelude
pub mod Bits
pub mod SdifV1
pub mod SdifV2
pub mod Xmac
pub mod XmacV2
