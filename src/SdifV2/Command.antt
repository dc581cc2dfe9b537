-- ===== src/SdifV2/Command.antt =====
-- drivers/fsdif_v2_0/phytium_sdif_v2_wrapper.c: the flags and the raw command word of a request.
-- `none` is a call of `panic`.
pub mod Layout
pub mod Raw
pub mod Response
use mathlib.Core.Option
use phytium_sdk.Prelude.{
  ℕ, Bool, true, false, not, ◌&&◌, ◌||◌, Option, none, some, bit_and, bit_or, ◌==◌, if◌then◌else◌,
}
use phytium_sdk.SdifV2.Msg.{Header, StartCmd, StartData}

infixl 60 ◌|||◌
abbrev pub ◌|||◌ : ℕ → ℕ → ℕ
a ||| b = bit_or a b

-- `x` as a condition of C
abbrev pub truth : ℕ → Bool
truth x = not (x == 0)

module _ (h : Header) where
  open h use {
    rsp_spi_r1, rsp_spi_r1b, rsp_spi_r2, rsp_spi_r7, rsp_none, rsp_r1, rsp_r1b, rsp_r2, rsp_r3,
    rsp_r6, rsp_r7, cmd_ac, cmd_adtc, cmd_bc, cmd_bcr, rsp_present, rsp_136, rsp_crc, indx_set,
    resp_exp, resp_long, resp_crc, volt_switch, dat_exp, dat_write, start, block_rw_adtc,
  }

  unfoldable pub prepare_sd_command_flags : ℕ → ℕ → Option ℕ
  prepare_sd_command_flags opcode argument =
      if opcode == 0
      then some (rsp_spi_r1 ||| rsp_none ||| cmd_bc)
      else if opcode == 8
      then some (rsp_spi_r7 ||| rsp_r7 ||| cmd_bcr)
      else if opcode == 41
      then some (rsp_spi_r1 ||| rsp_r3 ||| cmd_bcr)
      else if opcode == 11
      then some (rsp_r1 ||| cmd_ac)
      else if opcode == 2
      then some (rsp_r2 ||| cmd_ac)
      else if opcode == 3
      then some (rsp_r6 ||| cmd_bcr)
      else if opcode == 9
      then some (rsp_r2 ||| cmd_ac)
      else if opcode == 7
      then (if truth argument then some (rsp_r1 ||| cmd_ac) else some (rsp_none ||| cmd_ac))
      else if opcode == 55
      then (if truth argument
          then some (rsp_spi_r1 ||| rsp_r1 ||| cmd_bcr)
          else some (rsp_spi_r1 ||| rsp_r1 ||| cmd_ac))
      else if opcode == 51
      then some (rsp_spi_r1 ||| rsp_r1 ||| cmd_adtc)
      else if opcode == 6
      then some (rsp_r1 ||| cmd_ac)
      else if opcode == 13
      then some (rsp_spi_r2 ||| rsp_r1 ||| cmd_adtc)
      else if opcode == 16
      then some (rsp_spi_r1 ||| rsp_r1 ||| cmd_ac)
      else if opcode == 23
      then some (rsp_r1 ||| cmd_ac)
      else if opcode == 24
      then some (rsp_spi_r1 ||| rsp_r1 ||| cmd_adtc)
      else if opcode == 25
      then some (rsp_spi_r1 ||| rsp_r1 ||| cmd_adtc)
      else if opcode == 17
      then some (rsp_spi_r1 ||| rsp_r1 ||| cmd_adtc)
      else if opcode == 18
      then some (rsp_spi_r1 ||| rsp_r1 ||| cmd_adtc)
      else none

  unfoldable pub prepare_mmc_command_flags : ℕ → ℕ → Option ℕ
  prepare_mmc_command_flags opcode argument =
      if opcode == 0
      then some (rsp_spi_r1 ||| rsp_none ||| cmd_bc)
      else if opcode == 1
      then some (rsp_spi_r1 ||| rsp_r3 ||| cmd_bcr)
      else if opcode == 2
      then some (rsp_r2 ||| cmd_ac)
      else if opcode == 3
      then some (rsp_r1 ||| cmd_ac)
      else if opcode == 9
      then some (rsp_r2 ||| cmd_ac)
      else if opcode == 7
      then (if truth argument then some (rsp_r1 ||| cmd_ac) else some (rsp_none ||| cmd_ac))
      else if opcode == 8
      then some (rsp_spi_r1 ||| rsp_r1 ||| cmd_adtc)
      else if opcode == 6
      then some (cmd_ac ||| rsp_spi_r1b ||| rsp_r1b)
      else if opcode == 13
      then some (rsp_spi_r2 ||| rsp_r1 ||| cmd_ac)
      else if opcode == 16
      then some (rsp_spi_r1 ||| rsp_r1 ||| cmd_ac)
      else if opcode == 23
      then some (rsp_r1 ||| cmd_ac)
      else if opcode == 24
      then some (rsp_spi_r1 ||| rsp_r1 ||| cmd_adtc)
      else if opcode == 25
      then some (rsp_spi_r1 ||| rsp_r1 ||| cmd_adtc)
      else if opcode == 17
      then some (rsp_spi_r1 ||| rsp_r1 ||| cmd_adtc)
      else if opcode == 18
      then some (rsp_spi_r1 ||| rsp_r1 ||| cmd_adtc)
      else none

  unfoldable pub prepare_command_flags : ℕ → ℕ → Bool → Option ℕ
  prepare_command_flags opcode argument non_removable =
      if non_removable
      then prepare_mmc_command_flags opcode argument
      else prepare_sd_command_flags opcode argument

  -- the statements of `sdif_v2_prepare_raw_command` after its first, in their order
  unfoldable pub with_init : ℕ → ℕ → ℕ
  with_init opcode raw = if opcode == 0 then raw ||| h.init else raw

  unfoldable pub with_response : ℕ → ℕ → ℕ
  with_response flags raw =
      if truth (bit_and rsp_present flags)
      then (let long =
            (if truth (bit_and rsp_136 flags)
              then raw ||| resp_exp ||| resp_long
              else raw ||| resp_exp) in
          if truth (bit_and rsp_crc flags) then long ||| resp_crc else long)
      else raw

  unfoldable pub with_voltage : ℕ → Bool → ℕ → ℕ
  with_voltage opcode non_removable raw =
      if not non_removable && (opcode == 11) then raw ||| volt_switch else raw

  unfoldable pub with_transfer : Bool → Bool → ℕ → ℕ
  with_transfer with_data write_data raw =
      if with_data
      then (if write_data then raw ||| dat_exp ||| dat_write else raw ||| dat_exp)
      else raw

  unfoldable pub raw_word : ℕ → Bool → Bool → Bool → ℕ → ℕ
  raw_word opcode non_removable with_data write_data flags =
      with_transfer with_data write_data (
        with_voltage opcode non_removable
          (with_response flags (with_init opcode (indx_set opcode))))
      ||| start

  unfoldable pub prepare_raw_command : ℕ → ℕ → Bool → Bool → Bool → Option ℕ
  prepare_raw_command opcode argument non_removable with_data write_data =
      Option.map (raw_word opcode non_removable with_data write_data)
        (prepare_command_flags opcode argument non_removable)

  unfoldable pub prepare_data_transfer : ℕ → ℕ → Bool → Bool → ℕ → ℕ → Option StartData
  prepare_data_transfer opcode argument non_removable write_data blksz blkcnt =
      Option.map
        (λ raw. record {
          cmd_arg = argument;
          raw_cmd = raw;
          data_flags = if write_data then h.data_write else h.data_read;
          adtc_type = block_rw_adtc;
          adma_addr = 0;
          mrq_data_blksz = blksz;
          mrq_data_blocks = blkcnt;
        })
        (prepare_raw_command opcode argument non_removable true write_data)

  unfoldable pub prepare_command_transfer : ℕ → ℕ → Bool → Option StartCmd
  prepare_command_transfer opcode argument non_removable =
      elim (prepare_raw_command opcode argument non_removable false false) [
        | none ↦ none
        | some raw ↦
            Option.map
              (λ flags. record {
                opcode = opcode;
                cmd_arg = argument;
                raw_cmd = raw;
                flags = flags;
              })
              (prepare_command_flags opcode argument non_removable)
      ]
