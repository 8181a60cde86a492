-- ===== src/Protocol/Crc/Linear.antt =====
-- The checksums of two lists of bytes against the checksum of the bits in which they differ.
use sharak.Prelude.{
  ℕ, ◌+◌, ◌≤◌, ◌≡◌, ◌≢◌, refl, ap, sym, ◌∙◌, arith, List, [], ◌∷◌, IsU16, IsU8, u16, ◌<<<◌, bit_xor,
  length, All,
}
use sharak.Prelude.Bits.{bit_xor-lt, bit_xor_self, bit_xor_assoc, bit_xor_comm, bit_xor_parts}
use sharak.Protocol.Crc.{shift_bits, crc_byte, crc_init}
use sharak.Protocol.Crc.Register.{shift_bits-bit_xor, crc_byte-IsU16}
use sharak.Protocol.Crc.Fold.{crc_from, crc_of}
use sharak.Protocol.Crc.Parity.{ones, weight, flips}
use sharak.Protocol.Crc.Distance.{two_bits_differ}

-- The wrong bits of each byte.
unfoldable pub error_of : List ℕ → List ℕ → List ℕ
error_of [] ys = []
error_of (x ∷ xs) [] = []
error_of (x ∷ xs) (y ∷ ys) = bit_xor x y ∷ error_of xs ys

weight-error_of : (xs ys : List ℕ) → weight (error_of xs ys) ≡ flips xs ys
unfolding weight error_of flips
weight-error_of [] ys = refl
weight-error_of (x ∷ xs) [] = refl
weight-error_of (x ∷ xs) (y ∷ ys) = ap (λ (n : ℕ). ones 8 (bit_xor x y) + n) (weight-error_of xs ys)

error_of-IsU8 : (xs ys : List ℕ) → All IsU8 xs → All IsU8 ys → All IsU8 (error_of xs ys)
unfolding error_of
error_of-IsU8 [] ys h k = tt
error_of-IsU8 (x ∷ xs) [] h k = tt
error_of-IsU8 (x ∷ xs) (y ∷ ys) (hx, h) (hy, k) = (bit_xor-lt 8 x y hx hy, error_of-IsU8 xs ys h k)

length-error_of : (xs ys : List ℕ) → length xs ≡ length ys → length (error_of xs ys) ≡ length xs
unfolding error_of
length-error_of [] ys e = refl
length-error_of (x ∷ xs) [] e = absurd (omega arith)
length-error_of (x ∷ xs) (y ∷ ys) e = omega (arith, length-error_of xs ys (omega arith))

four_way : (a b c d : ℕ) → bit_xor (bit_xor a b) (bit_xor c d) ≡ bit_xor (bit_xor a c) (bit_xor b d)
four_way a b c d =
    bit_xor_assoc a b (bit_xor c d)
    ∙ (ap (bit_xor a) (
          sym (bit_xor_assoc b c d)
          ∙ (ap (λ (t : ℕ). bit_xor t d) (bit_xor_comm b c) ∙ bit_xor_assoc c b d))
        ∙ sym (bit_xor_assoc a c (bit_xor b d)))

crc_byte-bit_xor :
    (c d x y : ℕ)
    → IsU16 c
    → IsU16 d
    → IsU8 x
    → IsU8 y
    → crc_byte (bit_xor c d) (bit_xor x y) ≡ bit_xor (crc_byte c x) (crc_byte d y)
unfolding crc_byte
crc_byte-bit_xor c d x y hc hd hx hy =
    let a = u16 (x <<< 8) in
    let b = u16 (y <<< 8) in
    let small = bit_xor-lt 8 x y hx hy in
    let high : u16 (bit_xor x y <<< 8) ≡ bit_xor a b = ground (arith, bit_xor_parts 8 x 0 y 0) in
    ap (λ (t : ℕ). shift_bits 8 (bit_xor (bit_xor c d) t)) high
    ∙ (ap (shift_bits 8) (four_way c d a b)
        ∙ shift_bits-bit_xor 8 (bit_xor c a) (bit_xor d b) (bit_xor-lt 16 c a hc (omega arith))
            (bit_xor-lt 16 d b hd (omega arith)))

crc_from-bit_xor :
    (xs ys : List ℕ) (c d : ℕ)
    → length xs ≡ length ys
    → IsU16 c
    → IsU16 d
    → All IsU8 xs
    → All IsU8 ys
    → crc_from (bit_xor c d) (error_of xs ys) ≡ bit_xor (crc_from c xs) (crc_from d ys)
unfolding crc_from error_of
crc_from-bit_xor [] [] c d e hc hd h k = refl
crc_from-bit_xor [] (y ∷ ys) c d e hc hd h k = absurd (omega arith)
crc_from-bit_xor (x ∷ xs) [] c d e hc hd h k = absurd (omega arith)
crc_from-bit_xor (x ∷ xs) (y ∷ ys) c d e hc hd (hx, h) (hy, k) =
    ap (λ (r : ℕ). crc_from r (error_of xs ys)) (crc_byte-bit_xor c d x y hc hd hx hy)
    ∙ crc_from-bit_xor xs ys (crc_byte c x) (crc_byte d y) (omega arith) (crc_byte-IsU16 c x hc)
        (crc_byte-IsU16 d y hd) h k

-- Two lists of as many bytes, up to the length of a frame, that differ in two bits have checksums
-- that differ.
pub crc_detects_two :
    (xs ys : List ℕ)
    → length xs ≡ length ys
    → length xs ≤ 18
    → All IsU8 xs
    → All IsU8 ys
    → flips xs ys ≡ 2
    → crc_of xs ≢ crc_of ys
crc_detects_two xs ys size short hx hy two same =
    let none_left : crc_from 0 (error_of xs ys) ≡ 0 =
      ap (λ (c : ℕ). crc_from c (error_of xs ys)) (sym (bit_xor_self crc_init))
      ∙ (crc_from-bit_xor xs ys crc_init crc_init size (omega arith) (omega arith) hx hy
          ∙ (ap (bit_xor (crc_of xs)) (sym same) ∙ bit_xor_self (crc_of xs))) in
    two_bits_differ (error_of xs ys) (error_of-IsU8 xs ys hx hy)
      (omega (arith, length-error_of xs ys size)) (weight-error_of xs ys ∙ two) none_left
