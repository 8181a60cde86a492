-- ===== src/Protocol/Crc.antt =====
-- `crc16_ccitt_false` of protocol/src/protocol.c: its two loops, with reads out of range as faults.
pub mod Register
pub mod Fold
pub mod Residue
pub mod Errors
pub mod Parity
pub mod TwoBits
pub mod Distance
pub mod Linear
mod Tests
use sharak.Prelude.{
  ℕ, zero, suc, ◌+◌, List, Ptr, Run, none, some, ◌>>=◌, load, ◌==◌, if◌then◌else◌, u16, ◌<<<◌,
  bit_and, bit_xor,
}

-- One round of the inner loop. `crc << 1` is done in `int`, so the cast cuts the top bit off.
pub shift_bit : ℕ → ℕ
shift_bit crc =
    if bit_and crc 0x8000 == 0 then u16 (crc <<< 1) else u16 (bit_xor (crc <<< 1) 0x1021)

-- `n` rounds of the inner loop.
pub shift_bits : ℕ → ℕ → ℕ
shift_bits zero crc = crc
shift_bits (suc n) crc = shift_bits n (shift_bit crc)

-- One round of the outer loop: the byte goes into the high half, and eight bits are shifted.
pub crc_byte : ℕ → ℕ → ℕ
crc_byte crc b = shift_bits 8 (bit_xor crc (u16 (b <<< 8)))

-- The outer loop at index `i`, with `len - i` rounds left.
pub crc_loop : List ℕ → ℕ → ℕ → ℕ → Run ℕ
crc_loop xs zero i crc = some crc
crc_loop xs (suc left) i crc = do b ← load xs i; crc_loop xs left (i + 1) (crc_byte crc b)

abbrev pub crc_init : ℕ
crc_init = 0xffff

unfoldable pub crc16_ccitt_false : Ptr (List ℕ) → ℕ → Run ℕ
unfolding crc_loop crc_byte shift_bits shift_bit
crc16_ccitt_false none len = some crc_init
crc16_ccitt_false (some xs) len = crc_loop xs len 0 crc_init
