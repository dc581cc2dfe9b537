-- ===== src/SdifV1/Softc.antt =====
-- The state of drivers/fsdif (`struct phytium_sdif_softc`) in the RTEMS build, and what the driver
-- asks of its surroundings. The objects of the MMC bus are those of SdifV2/Softc.
use phytium_sdk.Prelude.{ℕ, Bool, List, ◌∷◌, Option}
use phytium_sdk.SdifV2.Softc.{MmcCommand, MmcHost, Response}

-- `FSDIF_PIO_TRANS_MODE` and `FSDIF_IDMA_TRANS_MODE`
pub data TransMode : Type 0 where
  pio_trans_mode idma_trans_mode : TransMode

abbrev pub is_pio : TransMode → Bool
is_pio pio_trans_mode = Bool.true
is_pio idma_trans_mode = Bool.false

-- `FSdifTiming`; `pad_delay` is NULL in every timing
pub record Timing : Type 0 where
  pub use_hold : ℕ
  pub clk_div : ℕ
  pub clk_src : ℕ
  pub shift : ℕ

-- `FSdifCmdData`; `has_data` says that `data_p` points to the transfer's data
pub record CmdData : Type 0 where
  pub cmdidx : ℕ
  pub cmdarg : ℕ
  pub rawcmd : ℕ
  pub response : Response
  pub has_data : Bool

-- `FSdifData`
pub record TransData : Type 0 where
  pub buf : ℕ
  pub buf_dma : ℕ
  pub blksz : ℕ
  pub blkcnt : ℕ
  pub datalen : ℕ

-- The numbers of the FSdif headers, and those of FreeBSD's mmcreg.h that only this driver tests.
pub record FsdifReg : Type 0 where
  pub indx_set : ℕ → ℕ
  pub stop_abort : ℕ
  pub volt_switch : ℕ
  pub cmd_init : ℕ
  pub resp_exp : ℕ
  pub resp_long : ℕ
  pub resp_crc : ℕ
  pub dat_exp : ℕ
  pub dat_write : ℕ
  pub send_stop : ℕ
  pub use_hold_reg : ℕ
  pub switch_voltage : ℕ
  pub go_inactive_state : ℕ
  pub rsp_crc : ℕ
  pub block_size : ℕ
  pub max_fifo_cnt : ℕ

-- What the driver asks of its surroundings, newest first in `log`.
pub data Effect : Type 0 where
  done : ℕ → Effect
  transfer : TransMode → CmdData → TransData → Effect
  restart : Effect
  set_bus_width : ℕ → Effect
  set_power : Bool → Effect
  set_clock_by_calc : Bool → ℕ → Effect
  set_clock_by_dict : Bool → Timing → ℕ → Effect
  set_ddr_mode : Bool → Effect
  set_voltage_1_8v : Bool → Effect
  unhandled_vdd : ℕ → Effect
  enqueue_card_task enqueue_card_task_delayed : Effect
  attach_child delete_child wakeup : Effect

pub record Softc : Type 0 where
  pub locked : Bool
  -- `hc_cfg.non_removable`, and the fields of `hc`
  pub cfg_non_removable : Bool
  pub non_removable : Bool
  pub trans_mode : TransMode
  pub card_need_init : Bool
  -- the request in progress
  pub req : Option ℕ
  pub curcmd : Option ℕ
  pub dto_rcvd : Bool
  pub cmd_done : Bool
  pub req_pending : Bool
  pub expect_data : Bool
  -- `timeout_callout` is armed
  pub timer : Bool
  pub cmd_pkg : CmdData
  pub dat_pkg : TransData
  pub aligned_dma_buf : ℕ
  pub aligned_dma_buf_len : ℕ
  -- the settings
  pub use_hold : ℕ
  pub pre_fix_timing : ℕ
  pub auto_stop : Bool
  pub card_clock : ℕ
  pub power_mode : ℕ
  pub bus_width : ℕ
  pub voltage : ℕ
  pub cur_timing : Option Timing
  pub host : MmcHost
  -- the card and the owner of the host
  pub child : Bool
  pub bus_busy : ℕ
  -- the memory, the requests of the upper layer and the calls made
  pub mem : ℕ → ℕ
  pub requests : ℕ → MmcCommand
  pub log : List Effect

-- `SDIF_TIME_OUT`, in microseconds
abbrev pub sdif_time_out : ℕ
sdif_time_out = 6000000

abbrev pub emit : Effect → Softc → Softc
emit e s = record s { log = e ∷ s.log }
