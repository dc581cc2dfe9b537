-- ===== src/Bits.antt =====
-- Single bits of a machine word and the words built from them by `|`, at every width.
mod Step
pub mod Laws
pub mod Xor
pub mod Complement
pub mod Join
use phytium_sdk.Prelude.{ℕ, zero, suc, ◌/◌, ◌%◌, Bool, true, false, not, ◌==◌}

-- `(x >> i) & 1`
pub testb : ℕ → ℕ → Bool
testb x zero = x % 2 == 1
testb x (suc i) = testb (x / 2) i

-- exclusive or of two bits
abbrev pub differs : Bool → Bool → Bool
differs true b = not b
differs false b = b
