-- ===== src/SdifV2/Command/Response.antt =====
-- Which commands the wrapper handles, and the response that it asks of each.
use phytium_sdk.Prelude.{
  ℕ, ◌≡◌, ◌↔◌, Bool, true, false, not, ◌&&◌, ◌||◌, List, [], ◌∷◌, none, some, bit_and, arith, ◌==◌,
  if◌then◌else◌,
}
use phytium_sdk.SdifV2.Msg.{Header}
use phytium_sdk.SdifV2.Command.{
  truth, prepare_sd_command_flags, prepare_mmc_command_flags, prepare_command_flags,
}
use phytium_sdk.SdifV2.Command.Layout.{IsResponseFlags}

abbrev pub listed : List ℕ → ℕ → Bool
listed [] c = false
listed (x ∷ xs) c = (c == x) || listed xs c

-- the commands of the SD and of the eMMC specification that the driver sends
abbrev pub sd_commands : List ℕ
sd_commands = 0 ∷ 2 ∷ 3 ∷ 6 ∷ 7 ∷ 8 ∷ 9 ∷ 11 ∷ 13 ∷ 16 ∷ 17 ∷ 18 ∷ 23 ∷ 24 ∷ 25 ∷ 41 ∷ 51 ∷ 55 ∷ []

abbrev pub mmc_commands : List ℕ
mmc_commands = 0 ∷ 1 ∷ 2 ∷ 3 ∷ 6 ∷ 7 ∷ 8 ∷ 9 ∷ 13 ∷ 16 ∷ 17 ∷ 18 ∷ 23 ∷ 24 ∷ 25 ∷ []

mmc-none_iff :
    (h : Header) (opcode argument : ℕ)
    → (prepare_mmc_command_flags h opcode argument ≡ none) ↔ (listed mmc_commands opcode ≡ false)
unfolding prepare_mmc_command_flags
mmc-none_iff h opcode argument = (λ e. ground arith, λ e. ground arith)

sd-none_iff :
    (h : Header) (opcode argument : ℕ)
    → (prepare_sd_command_flags h opcode argument ≡ none) ↔ (listed sd_commands opcode ≡ false)
unfolding prepare_sd_command_flags
sd-none_iff h opcode argument = (λ e. ground arith, λ e. ground arith)

-- The driver panics exactly on the commands outside the table of the card's kind: `sd_commands` for
-- a removable card, `mmc_commands` for a soldered one.
pub prepare_command_flags-none_iff :
    (h : Header) (opcode argument : ℕ) (non_removable : Bool)
    → (prepare_command_flags h opcode argument non_removable ≡ none)
      ↔ (listed (if non_removable then mmc_commands else sd_commands) opcode ≡ false)
unfolding prepare_command_flags
prepare_command_flags-none_iff h opcode argument true = mmc-none_iff h opcode argument
prepare_command_flags-none_iff h opcode argument false = sd-none_iff h opcode argument

-- the response that the protocol gives a command: none, of 136 bits, with a CRC
abbrev pub answers : ℕ → ℕ → Bool
answers opcode argument = not ((opcode == 0) || ((opcode == 7) && (argument == 0)))

abbrev pub has_crc : Bool → ℕ → Bool
has_crc non_removable opcode = if non_removable then not (opcode == 1) else not (opcode == 41)

pub record Asks (h : Header) (non_removable : Bool) (opcode argument flags : ℕ) : Type 0 where
  pub expected : truth (bit_and h.rsp_present flags) ≡ answers opcode argument
  pub long : truth (bit_and h.rsp_136 flags) ≡ ((opcode == 2) || (opcode == 9))
  pub checked :
      truth (bit_and h.rsp_crc flags) ≡ (answers opcode argument && has_crc non_removable opcode)

module _ (h : Header) (v : IsResponseFlags h) (opcode argument : ℕ) where
  sd_response :
      {flags : ℕ}
      → prepare_sd_command_flags h opcode argument ≡ some flags
      → Asks h false opcode argument flags
  unfolding prepare_sd_command_flags
  sd_response e = ground arith

  mmc_response :
      {flags : ℕ}
      → prepare_mmc_command_flags h opcode argument ≡ some flags
      → Asks h true opcode argument flags
  unfolding prepare_mmc_command_flags
  mmc_response e = ground arith

  -- Where the flags of a command are made, they ask for the response that the protocol gives it:
  -- none for command 0 and for command 7 without an address, 136 bits exactly for commands 2 and 9,
  -- and a CRC for each response but R3 (command 41 of SD, command 1 of eMMC). The FSdifMsg headers
  -- have the documented response flags.
  pub prepare_command_flags-Asks :
      (non_removable : Bool) {flags : ℕ}
      → prepare_command_flags h opcode argument non_removable ≡ some flags
      → Asks h non_removable opcode argument flags
  unfolding prepare_command_flags
  prepare_command_flags-Asks true e = mmc_response e
  prepare_command_flags-Asks false e = sd_response e
