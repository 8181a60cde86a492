-- ===== src/Protocol/Crc/Residue.antt =====
-- The trailer of a frame: the checksum of a message, sent high byte first behind the message,
-- takes the register to zero, as the comment in `sk_frame_encode` says.
use sharak.Prelude.{
  ℕ, ◌+◌, ◌*◌, ◌^◌, ◌≡◌, ap, sym, ◌∙◌, arith, ◌↔◌, List, [], ◌∷◌, ◌++◌, IsU16, IsU8, u16, ◌<<<◌,
  bit_xor,
}
use sharak.Prelude.Bits.{
  bit_xor-lt, bit_xor_parts, bit_xor_assoc, bit_xor_self, bit_xor_undo, zero-bit_xor, bit_xor-zero,
}
use sharak.Protocol.Crc.{shift_bits, crc_byte, crc_init}
use sharak.Protocol.Crc.Register.{
  crc_byte-IsU16, shift_bits_low, shift_bits-bit_xor, shift_bits-injective, shift_bits-IsU16,
}
use sharak.Protocol.Crc.Fold.{crc_from, crc_of, crc_from-append}

pub crc_from-IsU16 : (c : ℕ) (xs : List ℕ) → IsU16 c → IsU16 (crc_from c xs)
unfolding crc_from
crc_from-IsU16 c [] h = h
crc_from-IsU16 c (x ∷ xs) h = crc_from-IsU16 (crc_byte c x) xs (crc_byte-IsU16 c x h)

pub crc_of-IsU16 : (xs : List ℕ) → IsU16 (crc_of xs)
crc_of-IsU16 xs = crc_from-IsU16 crc_init xs (omega arith)

-- Two bytes go through the register as one 16-bit word.
pub crc_word :
    (c a b : ℕ)
    → IsU16 c
    → IsU8 a
    → IsU8 b
    → crc_byte (crc_byte c a) b ≡ shift_bits 8 (shift_bits 8 (bit_xor c (a * 2 ^ 8 + b)))
unfolding crc_byte
crc_word c a b hc ha hb =
    rw (u16a, u16b, ← shift_bits_low 8 b (omega arith))
      (ap (shift_bits 8)
        (sym (shift_bits-bit_xor 8 ca b ca-lt (omega arith)) ∙ ap (shift_bits 8) joined))
  where
    ca : ℕ
    ca = bit_xor c (a * 2 ^ 8)

    ca-lt : IsU16 ca
    ca-lt = bit_xor-lt 16 c (a * 2 ^ 8) hc (omega arith)

    u16a : u16 (a <<< 8) ≡ a * 2 ^ 8
    u16a = omega arith

    u16b : u16 (b <<< 8) ≡ b * 2 ^ 8
    u16b = omega arith

    joined : bit_xor (bit_xor c (a * 2 ^ 8)) b ≡ bit_xor c (a * 2 ^ 8 + b)
    joined = ground (
      arith,
      bit_xor_assoc c (a * 2 ^ 8) b,
      bit_xor_parts 8 a 0 0 b,
      bit_xor-zero a,
      zero-bit_xor b,
    )

-- The word is determined by where it takes the register.
pub crc_word-injective :
    (c d a b a' b' : ℕ)
    → IsU16 c
    → IsU16 d
    → IsU8 a
    → IsU8 b
    → IsU8 a'
    → IsU8 b'
    → crc_byte (crc_byte c a) b ≡ crc_byte (crc_byte d a') b'
    → bit_xor c (a * 2 ^ 8 + b) ≡ bit_xor d (a' * 2 ^ 8 + b')
crc_word-injective c d a b a' b' hc hd ha hb ha' hb' e =
    let x = bit_xor c (a * 2 ^ 8 + b) in
    let y = bit_xor d (a' * 2 ^ 8 + b') in
    let hx : IsU16 x = bit_xor-lt 16 c (a * 2 ^ 8 + b) hc (omega arith) in
    let hy : IsU16 y = bit_xor-lt 16 d (a' * 2 ^ 8 + b') hd (omega arith) in
    let e' : shift_bits 8 (shift_bits 8 x) ≡ shift_bits 8 (shift_bits 8 y) =
      sym (crc_word c a b hc ha hb) ∙ (e ∙ crc_word d a' b' hd ha' hb') in
    shift_bits-injective 8 x y hx hy
      (shift_bits-injective 8 _ _ (shift_bits-IsU16 8 x hx) (shift_bits-IsU16 8 y hy) e')

crc_word_zero :
    (c a b : ℕ) → IsU16 c → IsU8 a → IsU8 b → c ≡ a * 2 ^ 8 + b → crc_byte (crc_byte c a) b ≡ 0
crc_word_zero c a b hc ha hb e = ground (arith, crc_word c a b, bit_xor_self c, shift_bits_low 8 0)

-- The register is zero behind a message and two trailer bytes exactly when the trailer is the
-- checksum of the message, high byte first.
pub crc_residue :
    (xs : List ℕ) (hi lo : ℕ)
    → IsU8 hi
    → IsU8 lo
    → (crc_of (xs ++ (hi ∷ lo ∷ [])) ≡ 0) ↔ (crc_of xs ≡ hi * 2 ^ 8 + lo)
unfolding crc_from
crc_residue xs hi lo h l = (
  λ e.
      let c = crc_of xs in
      let hc = crc_of-IsU16 xs in
      let at_end : crc_byte (crc_byte c hi) lo ≡ 0 = sym (crc_from-append crc_init xs _) ∙ e in
      let z : crc_byte (crc_byte 0 0) 0 ≡ 0 =
        crc_word_zero 0 0 0 (omega arith) (omega arith) (omega arith) (omega arith) in
      let w =
        crc_word-injective c 0 hi lo 0 0 hc (omega arith) h l (omega arith) (omega arith)
          (at_end ∙ sym z) in
      ground
        (arith, bit_xor_undo c (hi * 2 ^ 8 + lo), zero-bit_xor (hi * 2 ^ 8 + lo), zero-bit_xor 0),
  λ e. crc_from-append crc_init xs _ ∙ crc_word_zero (crc_of xs) hi lo (crc_of-IsU16 xs) h l e,
)
