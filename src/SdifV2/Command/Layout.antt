-- ===== src/SdifV2/Command/Layout.antt =====
-- The documented encodings of the FSdifMsg headers, as hypotheses on `Header`: the command register
-- of the controller and the Linux-style response flags (`FSDIF_CMD_*`, `FSDIF_MMC_RSP_*`).
use phytium_sdk.Prelude.{ℕ, ◌^◌, ◌<◌, ◌≡◌}
use phytium_sdk.SdifV2.Msg.{Header}

-- The index stands in the six low bits; every other field of a raw command is one bit.
pub record IsCommandRegister (h : Header) : Type 0 where
  pub index_low : (c : ℕ) → c < 64 → h.indx_set c ≡ c
  pub resp_exp_bit : h.resp_exp ≡ 2 ^ 6
  pub resp_long_bit : h.resp_long ≡ 2 ^ 7
  pub resp_crc_bit : h.resp_crc ≡ 2 ^ 8
  pub dat_exp_bit : h.dat_exp ≡ 2 ^ 9
  pub dat_write_bit : h.dat_write ≡ 2 ^ 10
  pub init_bit : h.init ≡ 2 ^ 15
  pub volt_switch_bit : h.volt_switch ≡ 2 ^ 28
  pub start_bit : h.start ≡ 2 ^ 31

-- present 1, 136 bits 2, CRC 4, busy 8, opcode 16; the command classes and the SPI flags lie above.
pub record IsResponseFlags (h : Header) : Type 0 where
  pub present : h.rsp_present ≡ 2 ^ 0
  pub long : h.rsp_136 ≡ 2 ^ 1
  pub crc : h.rsp_crc ≡ 2 ^ 2
  pub none_is : h.rsp_none ≡ 0x0
  pub r1_is : h.rsp_r1 ≡ 0x15
  pub r1b_is : h.rsp_r1b ≡ 0x1d
  pub r2_is : h.rsp_r2 ≡ 0x7
  pub r3_is : h.rsp_r3 ≡ 0x1
  pub r6_is : h.rsp_r6 ≡ 0x15
  pub r7_is : h.rsp_r7 ≡ 0x15
  pub ac_is : h.cmd_ac ≡ 0x0
  pub adtc_is : h.cmd_adtc ≡ 0x20
  pub bc_is : h.cmd_bc ≡ 0x40
  pub bcr_is : h.cmd_bcr ≡ 0x60
  pub spi_r1_is : h.rsp_spi_r1 ≡ 0x80
  pub spi_r2_is : h.rsp_spi_r2 ≡ 0x180
  pub spi_r7_is : h.rsp_spi_r7 ≡ 0x280
  pub spi_r1b_is : h.rsp_spi_r1b ≡ 0x480
