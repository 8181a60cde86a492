-- ===== src/Protocol/Crc/TwoBits.antt =====
-- Two wrong bits. The register is linear, so that an error adds its own register to a message's; a
-- wrong bit adds a power of x modulo the polynomial, and two of these differ in a frame's length.
use native.Mathlib.Decide.{ℕ_discrete}
use native.Mathlib.Nat.{pow-suc}
use sharak.Prelude.{
  ℕ, zero, suc, ◌+◌, ◌*◌, ◌/◌, ◌%◌, ◌^◌, ◌<◌, ◌≡◌, refl, ap, ap₂, sym, ◌∙◌, arith, List, [], ◌∷◌,
  IsU16, IsU8, u16, ◌<<<◌, bit_xor, length, All,
}
use sharak.Prelude.Bits.{bit_xor-lt, zero-bit_xor, bit_xor-zero, bit_xor_assoc}
use sharak.Prelude.Digits.{bit_xor_digit}
use sharak.Protocol.Crc.{shift_bit, shift_bits, crc_byte}
use sharak.Protocol.Crc.Register.{
  bit_xor_double, shift_bits-IsU16, crc_byte-IsU16, shift_bits_low, shift_bits-bit_xor,
}
use sharak.Protocol.Crc.Fold.{crc_from}
use sharak.Protocol.Crc.Parity.{ones, weight}

-- A number with no ones, with one, with two, among its lowest `w` bits.
pub ones_none : (w n : ℕ) → n < 2 ^ w → ones w n ≡ 0 → n ≡ 0
unfolding ones
ones_none zero n h e = omega arith
ones_none (suc w) n h e =
    let rest = ones_none w (n / 2) (omega (arith, pow-suc 2 w)) (omega (arith, e)) in
    omega (arith, e, rest)

pub ones_one : (w n : ℕ) → n < 2 ^ w → ones w n ≡ 1 → (j : ℕ) × (j < w) × (n ≡ 2 ^ j)
unfolding ones
ones_one zero n h e = absurd (omega (arith, e))
ones_one (suc w) n h e = elim (ℕ_discrete (n % 2) 0) [
  | yes even ↦
      let (j, below, same) =
        ones_one w (n / 2) (omega (arith, pow-suc 2 w)) (omega (arith, e, even)) in
      (suc j, omega arith, omega (arith, even, same, pow-suc 2 j))
  | no odd ↦
      let rest = ones_none w (n / 2) (omega (arith, pow-suc 2 w)) (omega (arith, e)) in
      (0, omega arith, omega (arith, rest))
]

powers_double : (i j : ℕ) → bit_xor (2 ^ suc i) (2 ^ suc j) ≡ 2 * bit_xor (2 ^ i) (2 ^ j)
powers_double i j =
    ap₂ bit_xor {y = 2 * 2 ^ i} (omega (arith, pow-suc 2 i)) (omega (arith, pow-suc 2 j))
    ∙ bit_xor_double (2 ^ i) (2 ^ j)

one_and_power : (j : ℕ) → bit_xor 1 (2 ^ suc j) ≡ 2 * 2 ^ j + 1
one_and_power j =
    let half : bit_xor (1 / 2) (2 ^ suc j / 2) ≡ 2 ^ j =
      ap (bit_xor 0) {y = 2 ^ j} (omega (arith, pow-suc 2 j)) ∙ zero-bit_xor (2 ^ j) in
    omega (arith, bit_xor_digit 1 (2 ^ suc j), half, pow-suc 2 j)

pub ones_two :
    (w n : ℕ)
    → n < 2 ^ w
    → ones w n ≡ 2
    → (i : ℕ) × (j : ℕ) × (i < j) × (j < w) × (n ≡ bit_xor (2 ^ i) (2 ^ j))
unfolding ones
ones_two zero n h e = absurd (omega (arith, e))
ones_two (suc w) n h e = elim (ℕ_discrete (n % 2) 0) [
  | yes even ↦
      let (i, j, less, below, same) =
        ones_two w (n / 2) (omega (arith, pow-suc 2 w)) (omega (arith, e, even)) in
      (suc i, suc j, omega arith, omega arith, omega (arith, even, same, powers_double i j))
  | no odd ↦
      let (j, below, same) = ones_one w (n / 2) (omega (arith, pow-suc 2 w)) (omega (arith, e)) in
      (0, suc j, omega arith, omega arith, omega (arith, same, one_and_power j))
]

-- The register that a wrong bit adds: x to the power `t`, as `t` rounds on 1.
unfoldable pub power : ℕ → ℕ
power t = shift_bits t 1

pub shift_bits-add : (m n c : ℕ) → shift_bits (m + n) c ≡ shift_bits m (shift_bits n c)
unfolding shift_bits
shift_bits-add m zero c = ap (λ (k : ℕ). shift_bits k c) {x = m + 0} {y = m} (omega arith)
shift_bits-add m (suc n) c =
    ap (λ (k : ℕ). shift_bits k c) {x = m + suc n} {y = suc (m + n)} (omega arith)
    ∙ shift_bits-add m n (shift_bit c)

pub power-IsU16 : (t : ℕ) → IsU16 (power t)
unfolding power
power-IsU16 t = shift_bits-IsU16 t 1 (omega arith)

pub power-add : (m n : ℕ) → shift_bits m (power n) ≡ power (m + n)
unfolding power
power-add m n = sym (shift_bits-add m n 1)

pub low_power : (j : ℕ) → 2 ^ j < 2 ^ 16 → power j ≡ 2 ^ j
unfolding power
low_power j h = shift_bits_low j 1 (omega arith) ∙ omega arith

-- A byte on an empty register.
pub byte_at_zero : (b : ℕ) → IsU8 b → crc_byte 0 b ≡ shift_bits 16 b
unfolding crc_byte
byte_at_zero b h =
    let moved : bit_xor 0 (u16 (b <<< 8)) ≡ shift_bits 8 b =
      zero-bit_xor (u16 (b <<< 8)) ∙ (omega arith ∙ sym (shift_bits_low 8 b (omega arith))) in
    ap (shift_bits 8) moved ∙ sym (shift_bits-add 8 8 b)

pub bit_at_zero : (b j : ℕ) → IsU8 b → b ≡ 2 ^ j → crc_byte 0 b ≡ power (16 + j)
bit_at_zero b j h e =
    byte_at_zero b h
    ∙ (ap (shift_bits 16) (e ∙ sym (low_power j (omega (arith, e)))) ∙ power-add 16 j)

-- An error in bytes that leaves the register as it was: no ones at all.
pub quiet_byte : (c : ℕ) → crc_byte c 0 ≡ shift_bits 8 c
unfolding crc_byte
quiet_byte c = ap (shift_bits 8) (bit_xor-zero c)

pub quiet_bytes :
    (xs : List ℕ) (c : ℕ)
    → All IsU8 xs
    → weight xs ≡ 0
    → crc_from c xs ≡ shift_bits (8 * length xs) c
unfolding crc_from weight shift_bits
quiet_bytes [] c h e = refl
quiet_bytes (x ∷ xs) c (hx, h) e =
    let no_ones : x ≡ 0 = ones_none 8 x hx (omega (arith, e)) in
    let rest = quiet_bytes xs (crc_byte c x) h (omega (arith, e)) in
    rest
    ∙ (ap (shift_bits (8 * length xs)) (ap (crc_byte c) no_ones ∙ quiet_byte c)
        ∙ (sym (shift_bits-add (8 * length xs) 8 c)
            ∙ ap (λ (k : ℕ). shift_bits k c) {x = 8 * length xs + 8} {y = 8 * suc (length xs)}
                (omega arith)))

-- A register in front of bytes is carried behind them.
carried_byte :
    (c d x : ℕ)
    → IsU16 c
    → IsU16 d
    → crc_byte (bit_xor c d) x ≡ bit_xor (shift_bits 8 c) (crc_byte d x)
unfolding crc_byte
carried_byte c d x hc hd =
    let m = u16 (x <<< 8) in
    ap (shift_bits 8) (bit_xor_assoc c d m)
    ∙ shift_bits-bit_xor 8 c (bit_xor d m) hc (bit_xor-lt 16 d m hd (omega arith))

pub carried_bytes :
    (xs : List ℕ) (c d : ℕ)
    → IsU16 c
    → IsU16 d
    → crc_from (bit_xor c d) xs ≡ bit_xor (shift_bits (8 * length xs) c) (crc_from d xs)
unfolding crc_from shift_bits
carried_bytes [] c d hc hd = refl
carried_bytes (x ∷ xs) c d hc hd =
    let n = 8 * length xs in
    let moved : shift_bits n (shift_bits 8 c) ≡ shift_bits (8 * suc (length xs)) c =
      sym (shift_bits-add n 8 c)
      ∙ ap (λ (k : ℕ). shift_bits k c) {x = n + 8} {y = 8 * suc (length xs)} (omega arith) in
    ap (λ (r : ℕ). crc_from r xs) (carried_byte c d x hc hd)
    ∙ (carried_bytes xs (shift_bits 8 c) (crc_byte d x) (shift_bits-IsU16 8 c hc)
          (crc_byte-IsU16 d x hd)
        ∙ ap (λ (r : ℕ). bit_xor r (crc_from (crc_byte d x) xs)) moved)

-- One wrong bit.
pub one_bit :
    (xs : List ℕ)
    → All IsU8 xs
    → weight xs ≡ 1
    → (t : ℕ) × (t < 8 * length xs + 16) × (crc_from 0 xs ≡ power t)
unfolding crc_from weight
one_bit [] h e = absurd (omega (arith, e))
one_bit (x ∷ xs) (hx, h) e = elim (ℕ_discrete (ones 8 x) 0) [
  | yes quiet ↦
      let (t, below, same) = one_bit xs h (omega (arith, e, quiet)) in
      let empty : crc_byte 0 x ≡ 0 =
        ap (crc_byte 0) (ones_none 8 x hx quiet)
        ∙ (quiet_byte 0 ∙ shift_bits_low 8 0 (omega arith)) in
      (t, omega arith, ap (λ (r : ℕ). crc_from r xs) empty ∙ same)
  | no here ↦
      let (j, below, at_j) = ones_one 8 x hx (omega (arith, e)) in
      let n = 8 * length xs in
      (
        n + (16 + j),
        omega arith,
        ap (λ (r : ℕ). crc_from r xs) (bit_at_zero x j hx at_j)
            ∙ (quiet_bytes xs (power (16 + j)) h (omega (arith, e)) ∙ power-add n (16 + j)),
      )
]
