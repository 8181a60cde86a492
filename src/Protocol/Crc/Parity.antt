-- ===== src/Protocol/Crc/Parity.antt =====
-- The parity of the checksum. The polynomial 0x1021 stands for four terms, so it divides only what
-- has an even number of terms: the register has as many ones as the bytes that went in, modulo 2.
use native.Mathlib.Decide.{dec_lt}
use native.Mathlib.Nat.{pow-suc}
use sharak.Prelude.{
  ◌≢◌, ℕ, zero, suc, ◌+◌, ◌-◌, ◌*◌, ◌/◌, ◌%◌, ◌^◌, ◌<◌, ◌≡◌, refl, ap, ap₂, sym, ◌∙◌, arith, List,
  [], ◌∷◌, IsU16, IsU8, u16, ◌<<<◌, bit_xor, length, All,
}
use sharak.Prelude.Bits.{bit_xor-div, bit_xor-mod_two, bit_xor-lt}
use sharak.Protocol.Crc.{shift_bit, shift_bits, crc_byte, crc_init}
use sharak.Protocol.Crc.Register.{shift_bit_low, shift_bit_high, shift_bit-IsU16, crc_byte-IsU16}
use sharak.Protocol.Crc.Fold.{crc_from, crc_of}

-- The number of ones among the lowest `w` bits, and in a list of bytes.
unfoldable pub ones : ℕ → ℕ → ℕ
ones zero n = 0
ones (suc w) n = n % 2 + ones w (n / 2)

unfoldable pub weight : List ℕ → ℕ
unfolding ones
weight [] = 0
weight (x ∷ xs) = ones 8 x + weight xs

-- The number of bits in which two lists of bytes differ, as far as both go.
unfoldable pub flips : List ℕ → List ℕ → ℕ
unfolding ones
flips [] ys = 0
flips (x ∷ xs) [] = 0
flips (x ∷ xs) (y ∷ ys) = ones 8 (bit_xor x y) + flips xs ys

ones-bit_xor : (w a b : ℕ) → ones w (bit_xor a b) % 2 ≡ (ones w a + ones w b) % 2
unfolding ones
ones-bit_xor zero a b = refl
ones-bit_xor (suc w) a b =
    let rest : ones w (bit_xor a b / 2) % 2 ≡ (ones w (a / 2) + ones w (b / 2)) % 2 =
      ap (λ (t : ℕ). ones w t % 2) (bit_xor-div a b) ∙ ones-bit_xor w (a / 2) (b / 2) in
    omega (arith, rest, bit_xor-mod_two a b)

ones_double : (w n : ℕ) → ones (suc w) (2 * n) ≡ ones w n
unfolding ones
ones_double w n =
    let half : ones w (2 * n / 2) ≡ ones w n = ap (ones w) (omega arith) in omega (arith, half)

-- Bits of which all the higher ones are clear.
ones_clear : (w n : ℕ) → n < 2 ^ w → ones (suc w) n ≡ ones w n
unfolding ones
ones_clear zero n h = omega arith
ones_clear (suc w) n h =
    let rest = ones_clear w (n / 2) (omega (arith, pow-suc 2 w)) in omega (arith, rest)

-- A word by its highest bit.
ones_top : (w n : ℕ) → n < 2 ^ w → ones (suc w) (n + 2 ^ w) ≡ ones w n + 1
unfolding ones
ones_top zero n h = let none_else : n ≡ 0 = omega arith in rw none_else refl
ones_top (suc w) n h =
    let half : (n + 2 ^ suc w) / 2 ≡ n / 2 + 2 ^ w = omega (arith, pow-suc 2 w) in
    let rest = ones_top w (n / 2) (omega (arith, pow-suc 2 w)) in
    let low : (n + 2 ^ suc w) % 2 ≡ n % 2 = omega (arith, pow-suc 2 w) in
    rw (half, rest, low) (omega arith)

shift_bit-ones : (c : ℕ) → IsU16 c → ones 16 (shift_bit c) % 2 ≡ ones 16 c % 2
shift_bit-ones c h = elim (dec_lt c 0x8000) [
  | yes low ↦
      rw (shift_bit_low c low)
        (ap (λ (t : ℕ). t % 2) (ones_double 15 c ∙ sym (ones_clear 15 c low)))
  | no high ↦
      let d = c - 0x8000 in
      let small : d < 2 ^ 15 = omega arith in
      let top : ones 16 c ≡ ones 15 d + 1 =
        ap (ones 16) {y = d + 2 ^ 15} (omega arith) ∙ ones_top 15 d small in
      rw (shift_bit_high c (omega arith) h)
        (omega (arith, top, ones-bit_xor 16 (2 * d) 0x1021, ones_double 15 d, polynomial))
]
  where
    polynomial : ones 16 0x1021 ≡ 3
    polynomial = unfold ones in refl

shift_bits-ones : (n c : ℕ) → IsU16 c → ones 16 (shift_bits n c) % 2 ≡ ones 16 c % 2
unfolding shift_bits
shift_bits-ones zero c h = refl
shift_bits-ones (suc n) c h =
    shift_bits-ones n (shift_bit c) (shift_bit-IsU16 c) ∙ shift_bit-ones c h

-- Shifting a byte to the high half keeps its ones.
ones_shift : (k w n : ℕ) → ones (k + w) (n * 2 ^ k) ≡ ones w n
unfolding ones
ones_shift zero w n = ap₂ ones {x = 0 + w} (omega arith) (omega arith)
ones_shift (suc k) w n =
    ap₂ ones {x = suc k + w} {y = suc (k + w)} (omega arith)
      (omega (arith, ap (λ (t : ℕ). n * t) (pow-suc 2 k)))
    ∙ (ones_double (k + w) (n * 2 ^ k) ∙ ones_shift k w n)

crc_byte-ones :
    (c b : ℕ) → IsU16 c → IsU8 b → ones 16 (crc_byte c b) % 2 ≡ (ones 16 c + ones 8 b) % 2
unfolding crc_byte
crc_byte-ones c b hc hb =
    let m : u16 (b <<< 8) ≡ b * 2 ^ 8 = omega arith in
    let moved : ones 16 (u16 (b <<< 8)) ≡ ones 8 b = ap (ones 16) m ∙ ones_shift 8 8 b in
    omega (
      arith,
      shift_bits-ones 8 (bit_xor c (u16 (b <<< 8)))
          (bit_xor-lt 16 c (u16 (b <<< 8)) hc (omega arith)),
      ones-bit_xor 16 c (u16 (b <<< 8)),
      moved,
    )

crc_from-ones :
    (xs : List ℕ) (c : ℕ)
    → IsU16 c
    → All IsU8 xs
    → ones 16 (crc_from c xs) % 2 ≡ (ones 16 c + weight xs) % 2
unfolding crc_from weight
crc_from-ones [] c h bytes = omega arith
crc_from-ones (x ∷ xs) c h (hx, hs) =
    omega (arith, crc_from-ones xs (crc_byte c x) (crc_byte-IsU16 c x h) hs, crc_byte-ones c x h hx)

-- The checksum of a list of bytes has as many ones as the list, modulo 2.
pub crc_of-ones : (xs : List ℕ) → All IsU8 xs → ones 16 (crc_of xs) % 2 ≡ weight xs % 2
crc_of-ones xs h =
    let start : ones 16 crc_init ≡ 16 = unfold ones in refl in
    omega (arith, crc_from-ones xs crc_init (omega arith) h, start)

flips-weight :
    (xs ys : List ℕ) → length xs ≡ length ys → flips xs ys % 2 ≡ (weight xs + weight ys) % 2
unfolding flips weight
flips-weight [] [] e = refl
flips-weight [] (y ∷ ys) e = absurd (omega arith)
flips-weight (x ∷ xs) [] e = absurd (omega arith)
flips-weight (x ∷ xs) (y ∷ ys) e =
    omega (arith, flips-weight xs ys (omega arith), ones-bit_xor 8 x y)

-- Two lists of as many bytes that differ in an odd number of bits have checksums that differ.
pub crc_detects_odd :
    (xs ys : List ℕ)
    → length xs ≡ length ys
    → All IsU8 xs
    → All IsU8 ys
    → flips xs ys % 2 ≡ 1
    → crc_of xs ≢ crc_of ys
crc_detects_odd xs ys size hx hy odd same =
    omega (arith, flips-weight xs ys size, crc_of-ones xs hx, crc_of-ones ys hy, ap (ones 16) same)
