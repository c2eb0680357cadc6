-- ===== src/Common/Bits.antt =====
-- `&` with the masks of the programs, at variables: the low byte, and the byte above it.
use Prim.Native.Nat.{ℕ, zero, suc, ◌+◌, ◌*◌, ◌/◌, ◌%◌, ◌≤◌, min, bit_and, digits, bit_and-bitwise}
use mathlib.Core.Path.{◌≡◌, refl}
use native.Mathlib.Omega.{arith}

-- What `&` with a mask keeps of a number, with any fuel that is enough.
abbrev Keeps : ℕ → (ℕ → ℕ) → Type 0
Keeps mask kept = (n a : ℕ) → a ≤ n → digits (λ b. zero) min n a mask ≡ kept a

nothing : Keeps 0 (λ a. 0)
nothing zero zero h = refl
nothing (suc n) zero h = refl
nothing zero (suc a) h = absurd (omega arith)
nothing (suc n) (suc a) h = omega (arith, nothing n (suc a / 2) (omega arith))

-- One more digit at the low end of the mask.
digit :
    (mask : ℕ) {kept : ℕ → ℕ}
    → Keeps (mask / 2) kept
    → Keeps mask (λ a. kept (a / 2) * 2 + min (a % 2) (mask % 2))
digit mask k zero zero h = omega (arith, k 0 0 (omega arith))
digit mask k (suc n) zero h = omega (arith, k 0 0 (omega arith))
digit mask k zero (suc a) h = absurd (omega arith)
digit mask k (suc n) (suc a) h = omega (arith, k n (suc a / 2) (omega arith))

nibble : Keeps 0xF (λ a. a % 16)
nibble n a h = omega (arith, digit 0xF (digit 7 (digit 3 (digit 1 nothing))) n a h)

low_byte : Keeps 0xFF (λ a. a % 256)
low_byte n a h = omega (arith, digit 0xFF (digit 0x7F (digit 0x3F (digit 0x1F nibble))) n a h)

middle_byte : Keeps 0xFF0 (λ a. a / 16 % 256 * 16)
middle_byte n a h =
    omega (arith, digit 0xFF0 (digit 0x7F8 (digit 0x3FC (digit 0x1FE low_byte))) n a h)

high_byte : Keeps 0xFF00 (λ a. a / 256 % 256 * 256)
high_byte n a h =
    omega (arith, digit 0xFF00 (digit 0x7F80 (digit 0x3FC0 (digit 0x1FE0 middle_byte))) n a h)

pub bit_and-low_byte : (a : ℕ) → bit_and a 0xFF ≡ a % 256
bit_and-low_byte a = omega (arith, bit_and-bitwise a 0xFF, low_byte a a (omega arith))

pub bit_and-high_byte : (a : ℕ) → bit_and a 0xFF00 ≡ a / 256 % 256 * 256
bit_and-high_byte a = omega (arith, bit_and-bitwise a 0xFF00, high_byte a a (omega arith))
