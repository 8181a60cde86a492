-- ===== src/Protocol/Crc/Errors.antt =====
-- Which transmission errors the checksum detects.
use sharak.Prelude.{
  ℕ, ◌+◌, ◌*◌, ◌^◌, ◌≡◌, ap, sym, ◌∙◌, arith, List, [], ◌∷◌, ◌++◌, IsU16, IsU8, u16, ◌<<<◌, bit_xor,
}
use sharak.Prelude.Bits.{bit_xor-lt, bit_xor_comm, bit_xor_undo}
use sharak.Protocol.Crc.{crc_byte, crc_init}
use sharak.Protocol.Crc.Register.{crc_byte-IsU16, shift_bits-injective}
use sharak.Protocol.Crc.Fold.{crc_from, crc_of, crc_from-append}
use sharak.Protocol.Crc.Residue.{crc_of-IsU16, crc_word-injective}

-- A mask cancels on either side.
bit_xor-cancel_right : (a b m : ℕ) → bit_xor a m ≡ bit_xor b m → a ≡ b
bit_xor-cancel_right a b m e =
    sym (bit_xor_undo a m) ∙ (ap (λ (t : ℕ). bit_xor t m) e ∙ bit_xor_undo b m)

bit_xor-cancel_left : (a b m : ℕ) → bit_xor m a ≡ bit_xor m b → a ≡ b
bit_xor-cancel_left a b m e = bit_xor-cancel_right a b m (bit_xor_comm a m ∙ (e ∙ bit_xor_comm m b))

crc_byte-injective : (c d b : ℕ) → IsU16 c → IsU16 d → crc_byte c b ≡ crc_byte d b → c ≡ d
unfolding crc_byte
crc_byte-injective c d b hc hd e =
    let m = u16 (b <<< 8) in
    bit_xor-cancel_right c d m (
      shift_bits-injective 8 _ _ (bit_xor-lt 16 c m hc (omega arith))
        (bit_xor-lt 16 d m hd (omega arith)) e)

-- Equal bytes behind a difference do not hide it.
crc_from-injective :
    (xs : List ℕ) (c d : ℕ) → IsU16 c → IsU16 d → crc_from c xs ≡ crc_from d xs → c ≡ d
unfolding crc_from
crc_from-injective [] c d hc hd e = e
crc_from-injective (x ∷ xs) c d hc hd e = crc_byte-injective c d x hc hd (
    crc_from-injective xs (crc_byte c x) (crc_byte d x) (crc_byte-IsU16 c x hc)
      (crc_byte-IsU16 d x hd) e)

-- Messages of one length that agree outside two neighbouring bytes, and have the same checksum,
-- agree there too: every error within such a pair, a burst of up to 16 bits, is detected.
pub crc_detects_pair :
    (pre post : List ℕ) (a b a' b' : ℕ)
    → IsU8 a
    → IsU8 b
    → IsU8 a'
    → IsU8 b'
    → crc_of (pre ++ (a ∷ b ∷ post)) ≡ crc_of (pre ++ (a' ∷ b' ∷ post))
    → (a ≡ a') × (b ≡ b')
unfolding crc_from
crc_detects_pair pre post a b a' b' ha hb ha' hb' e =
    let c = crc_of pre in
    let hc = crc_of-IsU16 pre in
    let end : crc_from (crc_byte (crc_byte c a) b) post
        ≡ crc_from (crc_byte (crc_byte c a') b') post =
      sym (crc_from-append crc_init pre (a ∷ b ∷ post))
      ∙ (e ∙ crc_from-append crc_init pre (a' ∷ b' ∷ post)) in
    let words =
      crc_word-injective c c a b a' b' hc hc ha hb ha' hb'
        (crc_from-injective post _ _ (step a b ha hb) (step a' b' ha' hb') end) in
    let same : a * 2 ^ 8 + b ≡ a' * 2 ^ 8 + b' = bit_xor-cancel_left _ _ c words in
    (omega arith, omega arith)
  where
    step : (x y : ℕ) → IsU8 x → IsU8 y → IsU16 (crc_byte (crc_byte (crc_of pre) x) y)
    step x y hx hy = crc_byte-IsU16 _ y (crc_byte-IsU16 _ x (crc_of-IsU16 pre))
