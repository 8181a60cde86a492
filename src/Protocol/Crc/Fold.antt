-- ===== src/Protocol/Crc/Fold.antt =====
-- The index loop of the checksum as a fold over the bytes that it covers.
use native.Mathlib.Numerals.{add-one}
use sharak.Prelude.{
  ℕ, zero, suc, ◌+◌, ◌≤◌, ◌≡◌, refl, arith, List, [], ◌∷◌, ◌++◌, some, length, take, drop, split_at,
}
use sharak.Protocol.Crc.{shift_bit, shift_bits, crc_byte, crc_loop, crc_init, crc16_ccitt_false}

-- The checksum register after a list of bytes.
unfoldable pub crc_from : ℕ → List ℕ → ℕ
unfolding crc_byte shift_bits shift_bit
crc_from crc [] = crc
crc_from crc (b ∷ bs) = crc_from (crc_byte crc b) bs

-- The checksum of a list of bytes.
abbrev pub crc_of : List ℕ → ℕ
crc_of bs = crc_from crc_init bs

pub crc_from-append : (c : ℕ) (xs ys : List ℕ) → crc_from c (xs ++ ys) ≡ crc_from (crc_from c xs) ys
unfolding crc_from
crc_from-append c [] ys = refl
crc_from-append c (x ∷ xs) ys = crc_from-append (crc_byte c x) xs ys

crc_loop-crc_from :
    (xs : List ℕ) (left i crc : ℕ)
    → i + left ≤ length xs
    → crc_loop xs left i crc ≡ some (crc_from crc (take left (drop i xs)))
unfolding crc_loop crc_from
crc_loop-crc_from xs zero i crc h = refl
crc_loop-crc_from xs (suc left) i crc h =
    let (b, read, rest, taken) = split_at i xs (omega arith) in
    rw (read, rest, ← add-one i) (crc_loop-crc_from xs left (i + 1) (crc_byte crc b) (omega arith))

-- With a length that fits the array, the function reads nothing out of range and returns the
-- checksum of the bytes that it is given.
pub crc16-crc_of :
    (xs : List ℕ) (len : ℕ)
    → len ≤ length xs
    → crc16_ccitt_false (some xs) len ≡ some (crc_of (take len xs))
unfolding crc16_ccitt_false
crc16-crc_of xs len h = crc_loop-crc_from xs len 0 crc_init (omega arith)
