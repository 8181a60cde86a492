-- ===== src/Protocol/Payload/Bytes.antt =====
-- The fields of a payload as arithmetic: little-endian bytes out and in.
use sharak.Prelude.{
  ℕ, ◌+◌, ◌*◌, ◌/◌, ◌%◌, ◌^◌, ◌≡◌, arith, [], ◌∷◌, IsU8, IsU16, IsU32, bit_or, u32, u16, ◌<<<◌, All,
}
use sharak.Prelude.Bits.{bit_and_mask, bit_or_low}
use sharak.Protocol.Payload.{byte_of, le16, le32}

byte_of_lem : (u k : ℕ) → byte_of u k ≡ u / 2 ^ k % 256
unfolding byte_of
byte_of_lem u k = omega (arith, bit_and_mask 8 (u / 2 ^ k))

pub le16_lem : (u : ℕ) → le16 u ≡ u % 256 ∷ u / 2 ^ 8 % 256 ∷ []
unfolding le16
le16_lem u = ground (arith, bit_and_mask 8 u, byte_of_lem u 8)

pub le32_lem :
    (u : ℕ) → le32 u ≡ u % 256 ∷ u / 2 ^ 8 % 256 ∷ u / 2 ^ 16 % 256 ∷ u / 2 ^ 24 % 256 ∷ []
unfolding le32
le32_lem u = ground (arith, bit_and_mask 8 u, byte_of_lem u 8, byte_of_lem u 16, byte_of_lem u 24)

pub le16-IsU8 : (u : ℕ) → All IsU8 (le16 u)
le16-IsU8 u = rw (le16_lem u) (omega arith, (omega arith, tt))

pub le32-IsU8 : (u : ℕ) → All IsU8 (le32 u)
le32-IsU8 u = rw (le32_lem u) (omega arith, (omega arith, (omega arith, (omega arith, tt))))

-- The `|` of shifted bytes is their sum.
pub join16 : (b0 b1 : ℕ) → IsU8 b0 → IsU8 b1 → u16 (bit_or b0 (b1 <<< 8)) ≡ b0 + b1 * 2 ^ 8
join16 b0 b1 h0 h1 = omega (arith, bit_or_low 8 b0 b1 h0)

pub join32 :
    (b0 b1 b2 b3 : ℕ)
    → IsU8 b0
    → IsU8 b1
    → IsU8 b2
    → IsU8 b3
    → u32 (bit_or (bit_or (bit_or b0 (b1 <<< 8)) (b2 <<< 16)) (b3 <<< 24))
      ≡ b0 + b1 * 2 ^ 8 + b2 * 2 ^ 16 + b3 * 2 ^ 24
join32 b0 b1 b2 b3 h0 h1 h2 h3 = ground (
  arith,
  bit_or_low 8 b0 b1,
  bit_or_low 16 (b0 + b1 * 2 ^ 8) b2,
  bit_or_low 24 (b0 + b1 * 2 ^ 8 + b2 * 2 ^ 16) b3,
)

-- Fields that were written are read back.
pub join16-le16 : (u : ℕ) → IsU16 u → u16 (bit_or (u % 256) ((u / 2 ^ 8 % 256) <<< 8)) ≡ u
join16-le16 u h = omega (arith, join16 (u % 256) (u / 2 ^ 8 % 256) (omega arith) (omega arith))

pub join32-le32 :
    (u : ℕ)
    → IsU32 u
    → u32 (
        bit_or
          (bit_or (bit_or (u % 256) ((u / 2 ^ 8 % 256) <<< 8)) ((u / 2 ^ 16 % 256) <<< 16))
          ((u / 2 ^ 24 % 256) <<< 24))
      ≡ u
join32-le32 u h = omega (
  arith,
  join32 (u % 256) (u / 2 ^ 8 % 256) (u / 2 ^ 16 % 256) (u / 2 ^ 24 % 256) (omega arith)
      (omega arith) (omega arith) (omega arith),
)
