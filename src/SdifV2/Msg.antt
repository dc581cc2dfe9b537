-- ===== src/SdifV2/Msg.antt =====
-- The data that drivers/fsdif_v2_0 exchanges with the FSdifMsg layer (phytium/fsdif_msg*.h, not in
-- this repository). The numbers of that layer's headers are the fields of `Header`.
use phytium_sdk.Prelude.{ℕ}

pub data Timing : Type 0 where
  legacy mmc_hs sd_hs uhs_sdr12 uhs_sdr25 uhs_sdr50 uhs_ddr50 uhs_sdr104 mmc_ddr52 : Timing
  mmc_hs200 mmc_hs400 : Timing

pub data BusWidth : Type 0 where
  width_1 width_4 width_8 : BusWidth

pub data PowerMode : Type 0 where
  power_off power_up power_on : PowerMode

pub data SignalVoltage : Type 0 where
  voltage_330 voltage_180 : SignalVoltage

-- `FSdifMsgDataSetIos`
pub record SetIos : Type 0 where
  pub ios_clock : ℕ
  pub ios_timing : Timing
  pub ios_bus_width : BusWidth
  pub ios_power_mode : PowerMode

-- The macros of the FSdifMsg headers that the wrapper combines.
pub record Header : Type 0 where
  pub rsp_spi_r1 : ℕ
  pub rsp_spi_r1b : ℕ
  pub rsp_spi_r2 : ℕ
  pub rsp_spi_r7 : ℕ
  pub rsp_none : ℕ
  pub rsp_r1 : ℕ
  pub rsp_r1b : ℕ
  pub rsp_r2 : ℕ
  pub rsp_r3 : ℕ
  pub rsp_r6 : ℕ
  pub rsp_r7 : ℕ
  pub cmd_ac : ℕ
  pub cmd_adtc : ℕ
  pub cmd_bc : ℕ
  pub cmd_bcr : ℕ
  pub rsp_present : ℕ
  pub rsp_136 : ℕ
  pub rsp_crc : ℕ
  pub indx_set : ℕ → ℕ
  pub init : ℕ
  pub resp_exp : ℕ
  pub resp_long : ℕ
  pub resp_crc : ℕ
  pub volt_switch : ℕ
  pub dat_exp : ℕ
  pub dat_write : ℕ
  pub start : ℕ
  pub data_write : ℕ
  pub data_read : ℕ
  pub block_rw_adtc : ℕ

-- `FSdifMsgDataStartCmd`
pub record StartCmd : Type 0 where
  pub opcode : ℕ
  pub cmd_arg : ℕ
  pub raw_cmd : ℕ
  pub flags : ℕ

-- `FSdifMsgDataStartData`
pub record StartData : Type 0 where
  pub cmd_arg : ℕ
  pub raw_cmd : ℕ
  pub data_flags : ℕ
  pub adtc_type : ℕ
  pub adma_addr : ℕ
  pub mrq_data_blksz : ℕ
  pub mrq_data_blocks : ℕ
