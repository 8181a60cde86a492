-- ===== src/Protocol/Frame/Stuff.antt =====
-- The wire format of a frame, independently of buffers: byte stuffing between two flags.
use sharak.Prelude.{
  ℕ, ◌+◌, ◌*◌, ◌/◌, ◌%◌, ◌^◌, ◌≤◌, ◌≡◌, arith, List, [], ◌∷◌, ◌++◌, length, length-append, All,
  IsU8, ◌==◌, ◌||◌, if◌then◌else◌, u8, bit_xor, All-append, Bool-cases, inl, inr,
}
use sharak.Protocol.Wire.{flag, esc_byte, esc_xor}
use sharak.Protocol.Crc.Fold.{crc_of}

-- One byte on the wire.
unfoldable pub stuff_byte : ℕ → List ℕ
stuff_byte b = if b == flag || b == esc_byte then esc_byte ∷ u8 (bit_xor b esc_xor) ∷ [] else b ∷ []

unfoldable pub stuff : List ℕ → List ℕ
stuff [] = []
stuff (b ∷ bs) = stuff_byte b ++ stuff bs

-- The checksum behind a message, high byte first.
abbrev pub trailer : List ℕ → List ℕ
trailer bs = crc_of bs / 2 ^ 8 % 256 ∷ crc_of bs % 256 ∷ []

-- A message with its checksum, and the frame that carries it.
abbrev pub sealed : List ℕ → List ℕ
sealed bs = bs ++ trailer bs

unfoldable pub frame : List ℕ → List ℕ
frame bs = flag ∷ (stuff (sealed bs) ++ (flag ∷ []))

pub length-stuff_byte : (b : ℕ) → (1 ≤ length (stuff_byte b)) × (length (stuff_byte b) ≤ 2)
unfolding stuff_byte
length-stuff_byte b = ground arith

pub length-stuff :
    (bs : List ℕ) → (length bs ≤ length (stuff bs)) × (length (stuff bs) ≤ 2 * length bs)
unfolding stuff
length-stuff [] = omega arith
length-stuff (b ∷ bs) =
    omega (arith, length-append (stuff_byte b) (stuff bs), length-stuff_byte b, length-stuff bs)

pub length-frame : (bs : List ℕ) → length (frame bs) ≡ length (stuff (sealed bs)) + 2
unfolding frame
length-frame bs = omega (arith, length-append (stuff (sealed bs)) (flag ∷ []))

-- Everything on the wire is a byte.
pub stuff-IsU8 : (bs : List ℕ) → All IsU8 bs → All IsU8 (stuff bs)
unfolding stuff
stuff-IsU8 [] h = tt
stuff-IsU8 (b ∷ bs) (hb, h) = All-append IsU8 (stuff_byte b) (stuff bs) (one b hb) (stuff-IsU8 bs h)
  where
    one : (b : ℕ) → IsU8 b → All IsU8 (stuff_byte b)
    one b hb =
        unfold stuff_byte in
        elim (Bool-cases (b == flag || b == esc_byte)) [
          | inl e ↦ rw e (omega arith, (omega arith, tt))
          | inr e ↦ rw e (hb, tt)
        ]

pub sealed-IsU8 : (bs : List ℕ) → All IsU8 bs → All IsU8 (sealed bs)
sealed-IsU8 bs h = All-append IsU8 bs (trailer bs) h (omega arith, (omega arith, tt))

pub frame-IsU8 : (bs : List ℕ) → All IsU8 bs → All IsU8 (frame bs)
unfolding frame
frame-IsU8 bs h = (
  omega arith,
  All-append IsU8 (stuff (sealed bs)) (flag ∷ []) (stuff-IsU8 (sealed bs) (sealed-IsU8 bs h))
      (omega arith, tt),
)
