-- ===== src/Protocol/Crc/Register.antt =====
-- The checksum register is a shift register: it stays in 16 bits, is reversible, and is linear
-- under exclusive or.
use native.Mathlib.Nat.{pow-suc, one-le-pow}
use native.Mathlib.Decide.{dec_lt}
use sharak.Prelude.{
  ℕ, zero, suc, ◌+◌, ◌*◌, ◌/◌, ◌%◌, ◌^◌, ◌-◌, ◌≤◌, ◌<◌, ◌≡◌, refl, ap, sym, ◌∙◌, arith, ◌==◌,
  if◌then◌else◌, IsU16, u16, ◌<<<◌, bit_xor, Bool-cases, inl, inr, ltb,
}
use sharak.Prelude.Bits.{
  bit_xor-lt, bit_and_bit, bit_xor-mod, bit_xor_comm, bit_xor_assoc, bit_xor-mod_two, bit_xor_undo,
  bit_xor_parts,
}
use sharak.Prelude.Digits.{bit_xor_digit}
use sharak.Protocol.Crc.{shift_bit, shift_bits, crc_byte}

-- The two branches of a round as arithmetic.
pub shift_bit_low : (c : ℕ) → c < 0x8000 → shift_bit c ≡ 2 * c
unfolding shift_bit
shift_bit_low c h = ground (arith, bit_and_bit 15 c)

pub shift_bit_high :
    (c : ℕ) → 0x8000 ≤ c → IsU16 c → shift_bit c ≡ bit_xor (2 * (c - 0x8000)) 0x1021
unfolding shift_bit
shift_bit_high c h g = ground (arith, bit_and_bit 15 c, bit_xor-mod 16 (c * 2) 0x1021)

pub shift_bit-IsU16 : (c : ℕ) → IsU16 (shift_bit c)
unfolding shift_bit
shift_bit-IsU16 c = ground arith

pub shift_bits-IsU16 : (n c : ℕ) → IsU16 c → IsU16 (shift_bits n c)
unfolding shift_bits
shift_bits-IsU16 zero c h = h
shift_bits-IsU16 (suc n) c h = shift_bits-IsU16 n (shift_bit c) (shift_bit-IsU16 c)

pub crc_byte-IsU16 : (c b : ℕ) → IsU16 c → IsU16 (crc_byte c b)
unfolding crc_byte
crc_byte-IsU16 c b h = shift_bits-IsU16 8 _ (bit_xor-lt 16 c (u16 (b <<< 8)) h (omega arith))

-- The round that undoes `shift_bit`: the polynomial is odd, so the lowest bit tells the branch.
unshift_bit : ℕ → ℕ
unshift_bit d = if d % 2 == 0 then d / 2 else bit_xor d 0x1021 / 2 + 0x8000

unshift_bit-shift_bit : (c : ℕ) → IsU16 c → unshift_bit (shift_bit c) ≡ c
unfolding unshift_bit
unshift_bit-shift_bit c h = elim (Bool-cases (ltb c 0x8000)) [
  | inl low ↦ ground (arith, shift_bit_low c)
  | inr high ↦ ground (
    arith,
    shift_bit_high c,
    bit_xor-mod_two (2 * (c - 0x8000)) 0x1021,
    bit_xor_undo (2 * (c - 0x8000)) 0x1021,
  )
]

pub shift_bits-injective : (n c d : ℕ) → IsU16 c → IsU16 d → shift_bits n c ≡ shift_bits n d → c ≡ d
unfolding shift_bits
shift_bits-injective zero c d hc hd e = e
shift_bits-injective (suc n) c d hc hd e =
    let one =
      shift_bits-injective n (shift_bit c) (shift_bit d) (shift_bit-IsU16 c) (shift_bit-IsU16 d)
        e in
    sym (unshift_bit-shift_bit c hc) ∙ (ap unshift_bit one ∙ unshift_bit-shift_bit d hd)

-- `n` rounds on a word whose top `n` bits are clear are a plain shift.
pub shift_bits_low : (n c : ℕ) → c * 2 ^ n < 2 ^ 16 → shift_bits n c ≡ c * 2 ^ n
unfolding shift_bits
shift_bits_low zero c h = omega arith
shift_bits_low (suc n) c h =
    let double : c * 2 ^ suc n ≡ 2 * (c * 2 ^ n) =
      omega (arith, ap (λ (t : ℕ). c * t) (pow-suc 2 n)) in
    let clear : c ≤ c * 2 ^ n = grind (arith, one-le-pow n 2) in
    rw (shift_bit_low c (omega arith)) (shift_bits_low n (2 * c) (omega arith) ∙ omega arith)

-- Exclusive or of words by their top bit and the 15 bits below it.
pub bit_xor_double : (a b : ℕ) → bit_xor (2 * a) (2 * b) ≡ 2 * bit_xor a b
bit_xor_double a b = ground (arith, bit_xor_digit (2 * a) (2 * b))

bit_xor_high_low :
    (c d : ℕ) → 0x8000 ≤ c → IsU16 c → d < 0x8000 → bit_xor c d ≡ 0x8000 + bit_xor (c - 0x8000) d
bit_xor_high_low c d h g k = ground (arith, bit_xor_parts 15 1 (c - 0x8000) 0 d)

bit_xor_high_high :
    (c d : ℕ)
    → 0x8000 ≤ c
    → IsU16 c
    → 0x8000 ≤ d
    → IsU16 d
    → bit_xor c d ≡ bit_xor (c - 0x8000) (d - 0x8000)
bit_xor_high_high c d h g k l = ground (arith, bit_xor_parts 15 1 (c - 0x8000) 1 (d - 0x8000))

shift_bit-bit_xor_high_low :
    (c d : ℕ)
    → 0x8000 ≤ c
    → IsU16 c
    → d < 0x8000
    → shift_bit (bit_xor c d) ≡ bit_xor (shift_bit c) (shift_bit d)
shift_bit-bit_xor_high_low c d h g k = ground (
  arith,
  bit_xor_high_low c d,
  bit_xor-lt 15 (c - 0x8000) d,
  shift_bit_high (bit_xor c d),
  shift_bit_high c,
  shift_bit_low d,
  bit_xor_double (c - 0x8000) d,
  bit_xor_assoc (2 * (c - 0x8000)) 0x1021 (2 * d),
  bit_xor_assoc (2 * (c - 0x8000)) (2 * d) 0x1021,
  bit_xor_comm 0x1021 (2 * d),
)

shift_bit-bit_xor_high_high :
    (c d : ℕ)
    → 0x8000 ≤ c
    → IsU16 c
    → 0x8000 ≤ d
    → IsU16 d
    → shift_bit (bit_xor c d) ≡ bit_xor (shift_bit c) (shift_bit d)
shift_bit-bit_xor_high_high c d h g k l =
    let a = 2 * (c - 0x8000) in
    let b = 2 * (d - 0x8000) in
    ground (
      arith,
      bit_xor_high_high c d,
      bit_xor-lt 15 (c - 0x8000) (d - 0x8000),
      shift_bit_low (bit_xor c d),
      shift_bit_high c,
      shift_bit_high d,
      bit_xor_double (c - 0x8000) (d - 0x8000),
      bit_xor_assoc (bit_xor a 0x1021) b 0x1021,
      bit_xor_assoc a 0x1021 b,
      bit_xor_comm 0x1021 b,
      bit_xor_assoc a b 0x1021,
      bit_xor_undo (bit_xor a b) 0x1021,
      bit_xor_comm b 0x1021,
    )

-- A round is linear.
pub shift_bit-bit_xor :
    (c d : ℕ) → IsU16 c → IsU16 d → shift_bit (bit_xor c d) ≡ bit_xor (shift_bit c) (shift_bit d)
shift_bit-bit_xor c d hc hd = elim (dec_lt c 0x8000) [
  | yes p ↦ elim (dec_lt d 0x8000) [
    | yes q ↦ ground (
      arith,
      bit_xor-lt 15 c d,
      shift_bit_low c,
      shift_bit_low d,
      shift_bit_low (bit_xor c d),
      bit_xor_double c d,
    )
    | no q ↦ ground (
      arith,
      shift_bit-bit_xor_high_low d c,
      bit_xor_comm c d,
      bit_xor_comm (shift_bit c) (shift_bit d),
    )
  ]
  | no p ↦ elim (dec_lt d 0x8000) [
    | yes q ↦ shift_bit-bit_xor_high_low c d (omega arith) hc q
    | no q ↦ shift_bit-bit_xor_high_high c d (omega arith) hc (omega arith) hd
  ]
]

-- So are `n` rounds.
pub shift_bits-bit_xor :
    (n c d : ℕ)
    → IsU16 c
    → IsU16 d
    → shift_bits n (bit_xor c d) ≡ bit_xor (shift_bits n c) (shift_bits n d)
unfolding shift_bits
shift_bits-bit_xor zero c d hc hd = refl
shift_bits-bit_xor (suc n) c d hc hd =
    rw (shift_bit-bit_xor c d hc hd)
      (shift_bits-bit_xor n (shift_bit c) (shift_bit d) (shift_bit-IsU16 c) (shift_bit-IsU16 d))
