-- ===== src/SdifV1/Command.antt =====
-- drivers/fsdif/phytium_sdif.c: the raw command word of a request.
pub mod Raw
use phytium_sdk.Prelude.{
  ℕ, ◌+◌, Bool, true, false, not, ◌&&◌, ◌||◌, Option, none, some, bit_and, ◌==◌, if◌then◌else◌,
}
use phytium_sdk.SdifV2.Command.{◌|||◌, truth}
use phytium_sdk.SdifV2.Softc.{MmcCommand, MmcData, MmcReg}
use phytium_sdk.SdifV1.Softc.{FsdifReg, Softc}

-- `if (b) raw |= bit`
unfoldable pub put : Bool → ℕ → ℕ → ℕ
put b bit raw = if b then raw ||| bit else raw

unfoldable pub is_multiple : MmcReg → ℕ → Bool
is_multiple reg opcode = (reg.read_multiple_block == opcode) || (reg.write_multiple_block == opcode)

module _ (f : FsdifReg) (reg : MmcReg) where
  -- the statements of `sdif_prepare_raw_cmd`, in their order
  unfoldable pub put_special : ℕ → Bool → ℕ → ℕ
  unfolding put
  put_special opcode card_need_init raw = put card_need_init f.cmd_init (
      put (f.switch_voltage == opcode) f.volt_switch
        (put (f.go_inactive_state == opcode) f.stop_abort raw))

  unfoldable pub put_response : ℕ → ℕ → ℕ
  unfolding put
  put_response flags raw =
      let present = truth (bit_and reg.rsp_present flags) in
      put (truth (bit_and f.rsp_crc flags)) f.resp_crc (
        put (present && truth (bit_and reg.rsp_136 flags)) f.resp_long (put present f.resp_exp raw))

  unfoldable pub put_transfer : ℕ → Option MmcData → Bool → ℕ → ℕ
  unfolding put is_multiple
  put_transfer opcode in_data auto_stop raw = elim in_data [
    | none ↦ raw
    | some d ↦
        put (auto_stop && is_multiple reg opcode) f.send_stop
          (put (truth (bit_and reg.data_write d.flags)) f.dat_write (raw ||| f.dat_exp))
  ]

  unfoldable pub raw_cmd : Softc → MmcCommand → ℕ
  unfolding put put_special put_response put_transfer
  raw_cmd s c = put (truth s.use_hold) f.use_hold_reg (
      put_transfer c.opcode c.transfer s.auto_stop
        (put_response c.flags (put_special c.opcode s.card_need_init (f.indx_set c.opcode))))

  -- `hc.card_need_init` is consumed by the command that initialises the card.
  unfoldable pub prepare_raw_cmd : Softc → MmcCommand → ℕ × Softc
  unfolding raw_cmd
  prepare_raw_cmd s c = (raw_cmd s c, record s { card_need_init = false })
