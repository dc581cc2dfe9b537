-- ===== src/SdifV1/Host/Timings.antt =====
-- The fixed timings: a target clock gets that of the least listed frequency that is not below it.
use phytium_sdk.Prelude.{ℕ, ◌≤◌, ◌<◌, ◌≡◌, ◌⊎◌, List, [], ◌∷◌, Option, none, some, arith}
use phytium_sdk.SdifV1.Softc.{Timing}
use phytium_sdk.SdifV1.Host.{Speeds, timing_of, get_sd_timing, get_mmc_timing}

-- the comments of the tables: a frequency and the timing for it
abbrev pub sd_table : Speeds → List (ℕ × Timing)
sd_table p =
    (p.speed_400_khz, timing_of 1 0x7e7dfa 0x000502)
    ∷ (p.speed_25_mhz, timing_of 1 0x030204 0x000302)
    ∷ (p.speed_50_mhz, timing_of 1 0x030204 0x000502)
    ∷ (p.speed_100_mhz, timing_of 0 0x010002 0x000202)
    ∷ []

abbrev pub mmc_table : Speeds → List (ℕ × Timing)
mmc_table p =
    (p.speed_400_khz, timing_of 1 0x7e7dfa 0x000502)
    ∷ (p.speed_26_mhz, timing_of 1 0x030204 0x000302)
    ∷ (p.speed_52_mhz, timing_of 0 0x030204 0x000202)
    ∷ (p.speed_66_mhz, timing_of 0 0x010002 0x000202)
    ∷ (p.speed_100_mhz, timing_of 0 0x010002 0x000202)
    ∷ []

abbrev pub All : (ℕ × Timing → Type 0) → List (ℕ × Timing) → Type 0
All P [] = Unit {0}
All P (x ∷ xs) = P x × All P xs

abbrev pub Any : (ℕ × Timing → Type 0) → List (ℕ × Timing) → Type 0
Any P [] = ⊥
Any P (x ∷ xs) = P x ⊎ Any P xs

-- No listed frequency reaches the target, or the timing is that of one that does, and of the least.
abbrev pub LeastFit : List (ℕ × Timing) → ℕ → Option Timing → Type 0
LeastFit table target none = All (λ x. x.0 < target) table
LeastFit table target (some t) =
    Any (λ x. (x.1 ≡ t) × (target ≤ x.0) × All (λ y. (y.0 < target) ⊎ (x.0 ≤ y.0)) table) table

-- the frequencies rise
pub record Rise (p : Speeds) : Type 0 where
  pub slowest : (p.speed_400_khz < p.speed_25_mhz) × (p.speed_400_khz < p.speed_26_mhz)
  pub sd : (p.speed_25_mhz < p.speed_50_mhz) × (p.speed_50_mhz < p.speed_100_mhz)
  pub mmc : (p.speed_26_mhz < p.speed_52_mhz) × (p.speed_52_mhz < p.speed_66_mhz)
  pub fastest : p.speed_66_mhz < p.speed_100_mhz

-- The timing for a target clock, for an SD card and for an eMMC alike, is that of the least listed
-- frequency that is not below the target, and there is none exactly when all of them are below it.
-- The frequencies rise from 400 kHz to 100 MHz.
pub get_timing-LeastFit :
    (p : Speeds) (target : ℕ)
    → Rise p
    → LeastFit (sd_table p) target (get_sd_timing p target)
      × LeastFit (mmc_table p) target (get_mmc_timing p target)
unfolding get_sd_timing get_mmc_timing
get_timing-LeastFit p target r = (ground arith, ground arith)
