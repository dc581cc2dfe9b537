-- ===== src/SdifV2/Command/Raw.antt =====
-- The raw command word, read back bit by bit.

use mathlib.Core.Option.{some-injective}
use phytium_sdk.Bits.{testb}
use phytium_sdk.Bits.Laws.{testb-bit_or, testb-pow, testb-high, bit_or-mod_64}
use phytium_sdk.Prelude.{
  ℕ, suc, ◌%◌, ◌^◌, ◌<◌, ◌≡◌, ◌∙◌, inl, inr, Option-cases, Bool, true, not, ◌&&◌, ◌||◌, some, subst,
  bit_and, arith, ◌==◌,
}
use phytium_sdk.SdifV2.Msg.{Header}
use phytium_sdk.SdifV2.Command.{
  ◌|||◌, truth, with_init, with_response, with_voltage, with_transfer, raw_word,
  prepare_command_flags, prepare_raw_command,
}
use phytium_sdk.SdifV2.Command.Layout.{IsCommandRegister}

testb-put : (x k i : ℕ) → testb (x ||| 2 ^ k) i ≡ (testb x i || (k == i))
testb-put x k i = ground (arith, testb-bit_or x (2 ^ k) i, testb-pow k i)

testb-or_bit : (x b k i : ℕ) → b ≡ 2 ^ k → testb (x ||| b) i ≡ (testb x i || (k == i))
testb-or_bit x b k i e = rw e (testb-put x k i)

-- What the fields of a raw command word say.
pub record Decodes (h : Header) (opcode : ℕ) (non_removable with_data write_data : Bool)
    (flags raw : ℕ) : Type 0 where
  pub index : raw % 64 ≡ opcode
  pub response : testb raw 6 ≡ truth (bit_and h.rsp_present flags)
  pub long : testb raw 7 ≡ (truth (bit_and h.rsp_present flags) && truth (bit_and h.rsp_136 flags))
  pub crc : testb raw 8 ≡ (truth (bit_and h.rsp_present flags) && truth (bit_and h.rsp_crc flags))
  pub data_expected : testb raw 9 ≡ with_data
  pub data_written : testb raw 10 ≡ (with_data && write_data)
  pub initial : testb raw 15 ≡ (opcode == 0)
  pub voltage : testb raw 28 ≡ (not non_removable && (opcode == 11))
  pub started : testb raw 31 ≡ true

module _ (h : Header) (v : IsCommandRegister h) where
  testb-with_init :
      (opcode raw i : ℕ)
      → testb (with_init h opcode raw) i ≡ (testb raw i || ((opcode == 0) && (15 == i)))
  unfolding with_init
  testb-with_init opcode raw i = rw v.init_bit (ground (arith, testb-put raw 15 i))

  testb-with_response :
      (flags raw i : ℕ)
      → testb (with_response h flags raw) i ≡ (
          testb raw i
          || (truth (bit_and h.rsp_present flags)
              && ((6 == i)
                  || (truth (bit_and h.rsp_136 flags) && (7 == i))
                  || (truth (bit_and h.rsp_crc flags) && (8 == i)))))
  unfolding with_response
  testb-with_response flags raw i =
      rw (v.resp_exp_bit, v.resp_long_bit, v.resp_crc_bit)
        (ground (
          arith,
          testb-put raw 6 i,
          testb-put (raw ||| 2 ^ 6) 7 i,
          testb-put (raw ||| 2 ^ 6) 8 i,
          testb-put (raw ||| 2 ^ 6 ||| 2 ^ 7) 8 i,
        ))

  testb-with_voltage :
      (opcode : ℕ) (non_removable : Bool) (raw i : ℕ)
      → testb (with_voltage h opcode non_removable raw) i
        ≡ (testb raw i || (not non_removable && (opcode == 11) && (28 == i)))
  unfolding with_voltage
  testb-with_voltage opcode non_removable raw i =
      rw v.volt_switch_bit (ground (arith, testb-put raw 28 i))

  testb-with_transfer :
      (with_data write_data : Bool) (raw i : ℕ)
      → testb (with_transfer h with_data write_data raw) i
        ≡ (testb raw i || (with_data && ((9 == i) || (write_data && (10 == i)))))
  unfolding with_transfer
  testb-with_transfer with_data write_data raw i =
      rw (v.dat_exp_bit, v.dat_write_bit)
        (ground (arith, testb-put raw 9 i, testb-put (raw ||| 2 ^ 9) 10 i))

  -- every bit of the word
  testb-raw_word :
      (opcode : ℕ) (non_removable with_data write_data : Bool) (flags i : ℕ)
      → testb (raw_word h opcode non_removable with_data write_data flags) i ≡ (
          ((((testb (h.indx_set opcode) i || ((opcode == 0) && (15 == i)))
                || (truth (bit_and h.rsp_present flags)
                    && ((6 == i)
                        || (truth (bit_and h.rsp_136 flags) && (7 == i))
                        || (truth (bit_and h.rsp_crc flags) && (8 == i)))))
              || (not non_removable && (opcode == 11) && (28 == i)))
            || (with_data && ((9 == i) || (write_data && (10 == i)))))
          || (31 == i))
  unfolding raw_word
  testb-raw_word opcode non_removable with_data write_data flags i = rw (
    testb-or_bit _ _ 31 i v.start_bit,
    testb-with_transfer,
    testb-with_voltage,
    testb-with_response,
    testb-with_init,
  )

  index-with_init : (opcode raw : ℕ) → with_init h opcode raw % 64 ≡ raw % 64
  unfolding with_init
  index-with_init opcode raw = rw v.init_bit (ground (arith, bit_or-mod_64 raw (2 ^ 15)))

  index-with_response : (flags raw : ℕ) → with_response h flags raw % 64 ≡ raw % 64
  unfolding with_response
  index-with_response flags raw =
      rw (v.resp_exp_bit, v.resp_long_bit, v.resp_crc_bit)
        (ground (
          arith,
          bit_or-mod_64 raw (2 ^ 6),
          bit_or-mod_64 (raw ||| 2 ^ 6) (2 ^ 7),
          bit_or-mod_64 (raw ||| 2 ^ 6) (2 ^ 8),
          bit_or-mod_64 (raw ||| 2 ^ 6 ||| 2 ^ 7) (2 ^ 8),
        ))

  index-with_voltage :
      (opcode : ℕ) (non_removable : Bool) (raw : ℕ)
      → with_voltage h opcode non_removable raw % 64 ≡ raw % 64
  unfolding with_voltage
  index-with_voltage opcode non_removable raw =
      rw v.volt_switch_bit (ground (arith, bit_or-mod_64 raw (2 ^ 28)))

  index-with_transfer :
      (with_data write_data : Bool) (raw : ℕ)
      → with_transfer h with_data write_data raw % 64 ≡ raw % 64
  unfolding with_transfer
  index-with_transfer with_data write_data raw =
      rw (v.dat_exp_bit, v.dat_write_bit)
        (ground (arith, bit_or-mod_64 raw (2 ^ 9), bit_or-mod_64 (raw ||| 2 ^ 9) (2 ^ 10)))

  index-raw_word :
      (opcode : ℕ) (non_removable with_data write_data : Bool) (flags : ℕ)
      → opcode < 64
      → raw_word h opcode non_removable with_data write_data flags % 64 ≡ opcode
  unfolding raw_word
  index-raw_word opcode non_removable with_data write_data flags small =
      let a = with_init h opcode (h.indx_set opcode) in
      let b = with_response h flags a in
      let c = with_voltage h opcode non_removable b in
      let d = with_transfer h with_data write_data c in
      bit_or-mod_64 d h.start (rw v.start_bit)
      ∙ index-with_transfer with_data write_data c
      ∙ index-with_voltage opcode non_removable b
      ∙ index-with_response flags a
      ∙ index-with_init opcode (h.indx_set opcode)
      ∙ omega (arith, v.index_low opcode small)

  raw_bit :
      (opcode : ℕ) (non_removable with_data write_data : Bool) (flags i : ℕ)
      → opcode < 64
      → let k = suc (suc (suc (suc (suc (suc i))))) in
        testb (raw_word h opcode non_removable with_data write_data flags) k ≡ (
          (((((opcode == 0) && (15 == k))
                || (truth (bit_and h.rsp_present flags)
                    && ((6 == k)
                        || (truth (bit_and h.rsp_136 flags) && (7 == k))
                        || (truth (bit_and h.rsp_crc flags) && (8 == k)))))
              || (not non_removable && (opcode == 11) && (28 == k)))
            || (with_data && ((9 == k) || (write_data && (10 == k)))))
          || (31 == k))
  raw_bit opcode non_removable with_data write_data flags i small = rw (
    testb-raw_word opcode non_removable with_data write_data flags,
    v.index_low opcode small,
    testb-high opcode i small,
  )

  raw_word-Decodes :
      (opcode : ℕ) (non_removable with_data write_data : Bool) (flags : ℕ)
      → opcode < 64
      → Decodes h opcode non_removable with_data write_data flags
          (raw_word h opcode non_removable with_data write_data flags)
  raw_word-Decodes opcode non_removable with_data write_data flags small =
      let bit = raw_bit opcode non_removable with_data write_data flags in
      record {
        index = index-raw_word opcode non_removable with_data write_data flags small;
        response = ground (arith, bit 0 small);
        long = ground (arith, bit 1 small);
        crc = ground (arith, bit 2 small);
        data_expected = ground (arith, bit 3 small);
        data_written = ground (arith, bit 4 small);
        initial = ground (arith, bit 9 small);
        voltage = ground (arith, bit 22 small);
        started = ground (arith, bit 25 small);
      }

  -- A raw command word, where one is made at all, is decoded field by field (`Decodes`): the six
  -- low bits hold the opcode, a response is expected (6), long (7) and CRC-checked (8) as the flags
  -- of the command say, data is expected (9) and written (10) as asked, INIT (15) goes with command
  -- 0 and the voltage switch (28) with command 11 of a removable card, and START (31) is always on.
  -- The opcode is below 64, and the FSdifMsg headers have the documented register layout.
  pub prepare_raw_command-Decodes :
      (opcode argument : ℕ) (non_removable with_data write_data : Bool) {raw : ℕ}
      → opcode < 64
      → prepare_raw_command h opcode argument non_removable with_data write_data ≡ some raw
      → (flags : ℕ) × (prepare_command_flags h opcode argument non_removable ≡ some flags)
        × Decodes h opcode non_removable with_data write_data flags raw
  unfolding prepare_raw_command
  prepare_raw_command-Decodes opcode argument non_removable with_data write_data small made =
      elim (Option-cases (prepare_command_flags h opcode argument non_removable)) [
        | inl e ↦ absurd (ground (arith, made, e))
        | inr (flags, e) ↦
            let same : some (raw_word h opcode non_removable with_data write_data flags) ≡ some _ =
              rw e at made in
            (
              flags,
              e,
              subst (Decodes h opcode non_removable with_data write_data flags)
                  (some-injective _ _ same)
                  (raw_word-Decodes opcode non_removable with_data write_data flags small),
            )
      ]
