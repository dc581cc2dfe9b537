-- ===== src/SdifV2/Softc.antt =====
-- The state of drivers/fsdif_v2_0 (`struct phytium_sdif_v2_softc`), the FreeBSD objects that it
-- points to, and what it does to its surroundings. The RTEMS build is modelled.
use phytium_sdk.Prelude.{ℕ, Bool, true, false, List, ◌∷◌, Option}
use phytium_sdk.SdifV2.Msg.{SetIos, SignalVoltage, StartCmd, StartData}

-- `errno` values; `success` is 0
pub data Errno : Type 0 where
  success eio ebusy enxio ecanceled einval : Errno

abbrev pub is_success : Errno → Bool
is_success success = true
is_success _ = false

-- `MMC_ERR_*`
pub data MmcError : Type 0 where
  err_none err_timeout err_no_memory err_failed : MmcError

-- `struct mmc_data`: the buffer is an address
pub record MmcData : Type 0 where
  pub flags : ℕ
  pub len : ℕ
  pub payload : ℕ

pub record Response : Type 0 where
  pub resp0 : ℕ
  pub resp1 : ℕ
  pub resp2 : ℕ
  pub resp3 : ℕ

-- `struct mmc_command`; a request is named by the address of its command
pub record MmcCommand : Type 0 where
  pub opcode : ℕ
  pub arg : ℕ
  pub flags : ℕ
  pub resp : Response
  pub error : MmcError
  pub transfer : Option MmcData

-- `struct mmc_ios`
pub record MmcIos : Type 0 where
  pub clock : ℕ
  pub vdd : ℕ
  pub vccq : ℕ
  pub bus_mode : ℕ
  pub chip_select : ℕ
  pub bus_width : ℕ
  pub power_mode : ℕ
  pub timing : ℕ

-- `struct mmc_host`
pub record MmcHost : Type 0 where
  pub ios : MmcIos
  pub f_min : ℕ
  pub f_max : ℕ
  pub host_ocr : ℕ
  pub ocr : ℕ
  pub mode : ℕ
  pub caps : ℕ

-- The numbers of FreeBSD's mmcreg.h and of `FSDIF_DMA_BUF_ALIGMENT`, which the driver tests.
pub record MmcReg : Type 0 where
  pub data_write : ℕ
  pub data_read : ℕ
  pub rsp_136 : ℕ
  pub rsp_present : ℕ
  pub set_block_count : ℕ
  pub read_multiple_block : ℕ
  pub write_multiple_block : ℕ
  pub app_cmd : ℕ
  pub sd_send_op_cond : ℕ
  pub sd_send_if_cond : ℕ
  pub bustest_w : ℕ
  pub bustest_r : ℕ
  pub set_blocklen : ℕ
  pub sector_size : ℕ
  pub dma_buf_alignment : ℕ

-- What the driver asks of its surroundings, newest first in `log`.
pub data Effect : Type 0 where
  done : ℕ → Effect
  submit : Option StartCmd → Option StartData → Effect
  sent_ios : SetIos → Effect
  sent_voltage : SignalVoltage → Effect
  host_reset : Effect
  enqueue_card_task : Effect
  enqueue_card_task_delayed : Effect
  attach_child : Effect
  delete_child : Effect
  wakeup : Effect

-- `FSdifMsgCommand`, `FSdifMsgData`
pub record Transfer : Type 0 where
  pub datainfo : StartData
  pub buf : ℕ
  pub buf_dma : ℕ

pub record Softc : Type 0 where
  pub locked : Bool
  -- `hc`
  pub non_removable : Bool
  pub cur_ios : SetIos
  pub cur_volt : SignalVoltage
  -- the request in progress
  pub req : Option ℕ
  pub curcmd : Option ℕ
  pub dto_rcvd : Bool
  pub cmd_done : Bool
  pub req_pending : Bool
  pub expect_data : Bool
  -- `timeout_callout` is armed
  pub timer : Bool
  -- `cmd.response` and `data`
  pub response : Response
  pub transfer : Transfer
  pub aligned_dma_buf : ℕ
  pub aligned_dma_buf_len : ℕ
  -- the host and the card
  pub auto_stop : Bool
  pub host : MmcHost
  pub curios : MmcIos
  pub child : Bool
  pub bus_busy : ℕ
  -- the memory, the requests of the upper layer and the calls made
  pub mem : ℕ → ℕ
  pub requests : ℕ → MmcCommand
  pub log : List Effect

-- `SDIF_TIME_OUT`, in microseconds
abbrev pub sdif_time_out : ℕ
sdif_time_out = 25000000

abbrev pub emit : Effect → Softc → Softc
emit e s = record s { log = e ∷ s.log }

-- `memset(response, 0)`
abbrev pub no_response : Response
no_response = record { resp0 = 0; resp1 = 0; resp2 = 0; resp3 = 0 }
