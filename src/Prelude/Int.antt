-- ===== src/Prelude/Int.antt =====
-- Signed integers over the native numbers, and the casts of C between the fixed widths.
use Prim.Native.Nat.{ℕ, ◌-◌, ◌*◌, ◌/◌, ◌%◌, ◌^◌, ◌<◌}
use mathlib.Core.Path.{◌≡◌}
use native.Mathlib.Omega.{arith}
use sharak.Prelude.Tests.{ltb, if◌then◌else◌, lt→ltb, le→ltb}
use native.Mathlib.Decide.{dec_lt}

-- `negsuc n` is -(n + 1).
pub data ℤ : Type 0 where
  pos : ℕ → ℤ
  negsuc : ℕ → ℤ

-- `(uint8_t)n`, `(uint16_t)n`, `(uint32_t)n` of a non-negative value.
abbrev pub u8 : ℕ → ℕ
u8 n = n % 2 ^ 8

abbrev pub u16 : ℕ → ℕ
u16 n = n % 2 ^ 16

abbrev pub u32 : ℕ → ℕ
u32 n = n % 2 ^ 32

infixl 60 ◌<<<◌ ◌>>>◌
abbrev pub ◌<<<◌ : ℕ → ℕ → ℕ
x <<< k = x * 2 ^ k

abbrev pub ◌>>>◌ : ℕ → ℕ → ℕ
x >>> k = x / 2 ^ k

abbrev pub IsU8 : ℕ → Type 0
IsU8 n = n < 2 ^ 8

abbrev pub IsU16 : ℕ → Type 0
IsU16 n = n < 2 ^ 16

abbrev pub IsU32 : ℕ → Type 0
IsU32 n = n < 2 ^ 32

-- The values of a signed type of `w + 1` bits.
abbrev pub IsSigned : ℕ → ℤ → Type 0
IsSigned w (pos n) = n < 2 ^ w
IsSigned w (negsuc n) = n < 2 ^ w

abbrev pub IsI16 : ℤ → Type 0
IsI16 = IsSigned 15

abbrev pub IsI32 : ℤ → Type 0
IsI32 = IsSigned 31

-- `(uint16_t)z` and `(uint32_t)z`: reduction modulo 2^16 and 2^32.
abbrev pub i_to_u16 : ℤ → ℕ
i_to_u16 (pos n) = n % 2 ^ 16
i_to_u16 (negsuc n) = 2 ^ 16 - 1 - n % 2 ^ 16

abbrev pub i_to_u32 : ℤ → ℕ
i_to_u32 (pos n) = n % 2 ^ 32
i_to_u32 (negsuc n) = 2 ^ 32 - 1 - n % 2 ^ 32

-- `(int16_t)u` and `(int32_t)u`: the two's complement value of a bit pattern.
abbrev pub u_to_i16 : ℕ → ℤ
u_to_i16 u = if ltb u (2 ^ 15) then pos u else negsuc (2 ^ 16 - 1 - u)

abbrev pub u_to_i32 : ℕ → ℤ
u_to_i32 u = if ltb u (2 ^ 31) then pos u else negsuc (2 ^ 32 - 1 - u)

pub u_to_i16-i_to_u16 : (z : ℤ) → IsI16 z → u_to_i16 (i_to_u16 z) ≡ z
u_to_i16-i_to_u16 (pos n) h = ground arith
u_to_i16-i_to_u16 (negsuc n) h = ground arith

pub u_to_i32-i_to_u32 : (z : ℤ) → IsI32 z → u_to_i32 (i_to_u32 z) ≡ z
u_to_i32-i_to_u32 (pos n) h = ground arith
u_to_i32-i_to_u32 (negsuc n) h = ground arith

pub i_to_u16-IsU16 : (z : ℤ) → IsU16 (i_to_u16 z)
i_to_u16-IsU16 (pos n) = omega arith
i_to_u16-IsU16 (negsuc n) = omega arith

pub i_to_u32-IsU32 : (z : ℤ) → IsU32 (i_to_u32 z)
i_to_u32-IsU32 (pos n) = omega arith
i_to_u32-IsU32 (negsuc n) = omega arith

-- Every bit pattern of the width is the cast of the value that it stands for.
pub i_to_u16-u_to_i16 : (u : ℕ) → IsU16 u → IsI16 (u_to_i16 u) × (i_to_u16 (u_to_i16 u) ≡ u)
i_to_u16-u_to_i16 u h = elim (dec_lt u (2 ^ 15)) [
  | yes low ↦ rw (lt→ltb u (2 ^ 15) low) (low, omega arith)
  | no high ↦ rw (le→ltb u (2 ^ 15) (omega arith)) (omega arith, omega arith)
]

pub i_to_u32-u_to_i32 : (u : ℕ) → IsU32 u → IsI32 (u_to_i32 u) × (i_to_u32 (u_to_i32 u) ≡ u)
i_to_u32-u_to_i32 u h = elim (dec_lt u (2 ^ 31)) [
  | yes low ↦ rw (lt→ltb u (2 ^ 31) low) (low, omega arith)
  | no high ↦ rw (le→ltb u (2 ^ 31) (omega arith)) (omega arith, omega arith)
]
