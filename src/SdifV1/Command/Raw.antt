-- ===== src/SdifV1/Command/Raw.antt =====
-- The raw command word of drivers/fsdif, read back bit by bit.
use phytium_sdk.Bits.{testb}
use phytium_sdk.Bits.Laws.{testb-bit_or, testb-pow, testb-high, bit_or-mod_64}
use phytium_sdk.Prelude.{
  ℕ, suc, ◌%◌, ◌^◌, ◌<◌, ◌≡◌, refl, ◌∙◌, Bool, true, false, ◌&&◌, ◌||◌, Option, none, some, bit_and,
  arith, ◌==◌,
}
use phytium_sdk.SdifV2.Command.{◌|||◌, truth}
use phytium_sdk.SdifV2.Softc.{MmcCommand, MmcData, MmcReg}
use phytium_sdk.SdifV1.Softc.{FsdifReg, Softc}
use phytium_sdk.SdifV1.Command.{
  put, is_multiple, put_special, put_response, put_transfer, raw_cmd, prepare_raw_cmd,
}

-- The documented layout of the command register (`FSDIF_CMD_*`).
pub record IsCommandLayout (f : FsdifReg) : Type 0 where
  pub index_low : (c : ℕ) → c < 64 → f.indx_set c ≡ c
  pub resp_exp_bit : f.resp_exp ≡ 2 ^ 6
  pub resp_long_bit : f.resp_long ≡ 2 ^ 7
  pub resp_crc_bit : f.resp_crc ≡ 2 ^ 8
  pub dat_exp_bit : f.dat_exp ≡ 2 ^ 9
  pub dat_write_bit : f.dat_write ≡ 2 ^ 10
  pub send_stop_bit : f.send_stop ≡ 2 ^ 12
  pub stop_abort_bit : f.stop_abort ≡ 2 ^ 14
  pub init_bit : f.cmd_init ≡ 2 ^ 15
  pub volt_switch_bit : f.volt_switch ≡ 2 ^ 28
  pub use_hold_bit : f.use_hold_reg ≡ 2 ^ 29

-- data goes with the command, and is written
abbrev pub with_data : Option MmcData → Bool
with_data none = false
with_data (some d) = true

abbrev pub writes : MmcReg → Option MmcData → Bool
writes reg none = false
writes reg (some d) = truth (bit_and reg.data_write d.flags)

-- What the fields of the command register say of the command `c`, made in the state `s`.
pub record Says (f : FsdifReg) (reg : MmcReg) (s : Softc) (c : MmcCommand) (raw : ℕ) : Type 0 where
  pub index : raw % 64 ≡ c.opcode
  pub response : testb raw 6 ≡ truth (bit_and reg.rsp_present c.flags)
  pub long :
      testb raw 7 ≡ (truth (bit_and reg.rsp_present c.flags) && truth (bit_and reg.rsp_136 c.flags))
  pub crc : testb raw 8 ≡ truth (bit_and f.rsp_crc c.flags)
  pub data_expected : testb raw 9 ≡ with_data c.transfer
  pub data_written : testb raw 10 ≡ writes reg c.transfer
  pub stops : testb raw 12 ≡ (with_data c.transfer && s.auto_stop && is_multiple reg c.opcode)
  pub aborts : testb raw 14 ≡ (f.go_inactive_state == c.opcode)
  pub initial : testb raw 15 ≡ s.card_need_init
  pub voltage : testb raw 28 ≡ (f.switch_voltage == c.opcode)
  pub holds : testb raw 29 ≡ truth s.use_hold

testb-put :
    (b : Bool) (bit k raw i : ℕ)
    → bit ≡ 2 ^ k
    → testb (put b bit raw) i ≡ (testb raw i || (b && (k == i)))
unfolding put
testb-put b bit k raw i e = rw e (ground (arith, testb-bit_or raw (2 ^ k) i, testb-pow k i))

index-put : (b : Bool) (bit raw : ℕ) → bit % 64 ≡ 0 → put b bit raw % 64 ≡ raw % 64
unfolding put
index-put b bit raw e = ground (arith, bit_or-mod_64 raw bit)

module _ (f : FsdifReg) (reg : MmcReg) (v : IsCommandLayout f) where
  testb-put_special :
      (opcode : ℕ) (need : Bool) (raw i : ℕ)
      → testb (put_special f reg opcode need raw) i ≡ (
          ((testb raw i || ((f.go_inactive_state == opcode) && (14 == i)))
            || ((f.switch_voltage == opcode) && (28 == i)))
          || (need && (15 == i)))
  unfolding put_special
  testb-put_special opcode need raw i = rw (
    testb-put need f.cmd_init 15 _ i v.init_bit,
    testb-put (f.switch_voltage == opcode) f.volt_switch 28 _ i v.volt_switch_bit,
    testb-put (f.go_inactive_state == opcode) f.stop_abort 14 raw i v.stop_abort_bit,
  )

  testb-put_response :
      (flags raw i : ℕ)
      → testb (put_response f reg flags raw) i ≡ (
          ((testb raw i || (truth (bit_and reg.rsp_present flags) && (6 == i)))
            || ((truth (bit_and reg.rsp_present flags) && truth (bit_and reg.rsp_136 flags))
                && (7 == i)))
          || (truth (bit_and f.rsp_crc flags) && (8 == i)))
  unfolding put_response
  testb-put_response flags raw i =
      let present = truth (bit_and reg.rsp_present flags) in
      rw (
        testb-put (truth (bit_and f.rsp_crc flags)) f.resp_crc 8 _ i v.resp_crc_bit,
        testb-put (present && truth (bit_and reg.rsp_136 flags)) f.resp_long 7 _ i v.resp_long_bit,
        testb-put present f.resp_exp 6 raw i v.resp_exp_bit,
      )

  testb-put_transfer :
      (opcode : ℕ) (t : Option MmcData) (auto_stop : Bool) (raw i : ℕ)
      → testb (put_transfer f reg opcode t auto_stop raw) i ≡ (
          ((testb raw i || (with_data t && (9 == i))) || (writes reg t && (10 == i)))
          || ((with_data t && auto_stop && is_multiple reg opcode) && (12 == i)))
  unfolding put_transfer
  testb-put_transfer opcode none auto_stop raw i = ground arith
  testb-put_transfer opcode (some d) auto_stop raw i = rw (
    testb-put (auto_stop && is_multiple reg opcode) f.send_stop 12 _ i v.send_stop_bit,
    testb-put (truth (bit_and reg.data_write d.flags)) f.dat_write 10 _ i v.dat_write_bit,
    v.dat_exp_bit,
    testb-bit_or raw (2 ^ 9) i,
    testb-pow 9 i,
  )

  -- every bit of the word above the index
  testb-raw_cmd :
      (s : Softc) (c : MmcCommand) (i : ℕ)
      → c.opcode < 64
      → let k = suc (suc (suc (suc (suc (suc i))))) in
        testb (raw_cmd f reg s c) k ≡ (
          ((((((((f.go_inactive_state == c.opcode) && (14 == k))
                      || ((f.switch_voltage == c.opcode) && (28 == k)))
                    || (s.card_need_init && (15 == k)))
                  || (truth (bit_and reg.rsp_present c.flags) && (6 == k)))
                || ((truth (bit_and reg.rsp_present c.flags) && truth (bit_and reg.rsp_136 c.flags))
                    && (7 == k)))
              || (truth (bit_and f.rsp_crc c.flags) && (8 == k)))
            || (with_data c.transfer && (9 == k)))
          || (writes reg c.transfer && (10 == k))
          || ((with_data c.transfer && s.auto_stop && is_multiple reg c.opcode) && (12 == k))
          || (truth s.use_hold && (29 == k)))
  unfolding raw_cmd
  testb-raw_cmd s c i small =
      let k = suc (suc (suc (suc (suc (suc i))))) in
      let one = put_special f reg c.opcode s.card_need_init (f.indx_set c.opcode) in
      let two = put_response f reg c.flags one in
      let three = put_transfer f reg c.opcode c.transfer s.auto_stop two in
      rw
        (
          testb-put (truth s.use_hold) f.use_hold_reg 29 three k v.use_hold_bit,
          testb-put_transfer c.opcode c.transfer s.auto_stop two k,
          testb-put_response c.flags one k,
          testb-put_special c.opcode s.card_need_init (f.indx_set c.opcode) k,
          v.index_low c.opcode small,
          testb-high c.opcode i small,
        )
        (ground arith)

  index-put_transfer :
      (opcode : ℕ) (t : Option MmcData) (auto_stop : Bool) (raw : ℕ)
      → put_transfer f reg opcode t auto_stop raw % 64 ≡ raw % 64
  unfolding put_transfer
  index-put_transfer opcode none auto_stop raw = refl
  index-put_transfer opcode (some d) auto_stop raw =
      let written = put (truth (bit_and reg.data_write d.flags)) f.dat_write (raw ||| f.dat_exp) in
      index-put (auto_stop && is_multiple reg opcode) f.send_stop written (rw v.send_stop_bit)
      ∙ index-put (truth (bit_and reg.data_write d.flags)) f.dat_write (raw ||| f.dat_exp)
          (rw v.dat_write_bit)
      ∙ bit_or-mod_64 raw f.dat_exp (rw v.dat_exp_bit)

  index-put_response : (flags raw : ℕ) → put_response f reg flags raw % 64 ≡ raw % 64
  unfolding put_response
  index-put_response flags raw =
      let present = truth (bit_and reg.rsp_present flags) in
      let one = put present f.resp_exp raw in
      let two = put (present && truth (bit_and reg.rsp_136 flags)) f.resp_long one in
      index-put (truth (bit_and f.rsp_crc flags)) f.resp_crc two (rw v.resp_crc_bit)
      ∙ index-put (present && truth (bit_and reg.rsp_136 flags)) f.resp_long one
          (rw v.resp_long_bit)
      ∙ index-put present f.resp_exp raw (rw v.resp_exp_bit)

  index-put_special :
      (opcode : ℕ) (need : Bool) (raw : ℕ) → put_special f reg opcode need raw % 64 ≡ raw % 64
  unfolding put_special
  index-put_special opcode need raw =
      let one = put (f.go_inactive_state == opcode) f.stop_abort raw in
      let two = put (f.switch_voltage == opcode) f.volt_switch one in
      index-put need f.cmd_init two (rw v.init_bit)
      ∙ index-put (f.switch_voltage == opcode) f.volt_switch one (rw v.volt_switch_bit)
      ∙ index-put (f.go_inactive_state == opcode) f.stop_abort raw (rw v.stop_abort_bit)

  index-raw_cmd : (s : Softc) (c : MmcCommand) → c.opcode < 64 → raw_cmd f reg s c % 64 ≡ c.opcode
  unfolding raw_cmd
  index-raw_cmd s c small =
      let one = put_special f reg c.opcode s.card_need_init (f.indx_set c.opcode) in
      let two = put_response f reg c.flags one in
      index-put (truth s.use_hold) f.use_hold_reg
        (put_transfer f reg c.opcode c.transfer s.auto_stop two) (rw v.use_hold_bit)
      ∙ index-put_transfer c.opcode c.transfer s.auto_stop two
      ∙ index-put_response c.flags one
      ∙ index-put_special c.opcode s.card_need_init (f.indx_set c.opcode)
      ∙ omega (arith, v.index_low c.opcode small)

  -- The command register's word of a request is decoded field by field (`Says`): the opcode, the
  -- response expected, its length and its CRC from the command's flags, the data, its direction and
  -- the automatic stop from its data, the abort and the voltage switch from the opcode, and the
  -- initialisation and the hold register from the driver's state, whose initialisation is then no
  -- longer due. The opcode is below 64, and the register has its documented layout.
  pub prepare_raw_cmd-Says :
      (s : Softc) (c : MmcCommand)
      → c.opcode < 64
      → let made = prepare_raw_cmd f reg s c in
        Says f reg s c made.0 × (made.1 ≡ record s { card_need_init = false })
  unfolding prepare_raw_cmd
  prepare_raw_cmd-Says s c small =
      let bit = testb-raw_cmd s c in
      (
        record {
          index = index-raw_cmd s c small;
          response = ground (arith, bit 0 small);
          long = ground (arith, bit 1 small);
          crc = ground (arith, bit 2 small);
          data_expected = ground (arith, bit 3 small);
          data_written = ground (arith, bit 4 small);
          stops = ground (arith, bit 6 small);
          aborts = ground (arith, bit 8 small);
          initial = ground (arith, bit 9 small);
          voltage = ground (arith, bit 22 small);
          holds = ground (arith, bit 23 small);
        },
        refl,
      )
