-- ===== src/Protocol/Payload/Canonical.antt =====
-- Unpacking is one to one: a message has no second byte string that unpacks to its values.
use sharak.Prelude.{
  none_left, ◌/◌, ◌%◌, suc, ℕ, zero, ◌+◌, ◌*◌, ◌^◌, ◌≤◌, ◌≡◌, ap, sym, ◌∙◌, arith, List, [], ◌∷◌,
  ◌++◌, ℤ, pos, some, length, drop, length-drop, All, IsU8, IsU16, IsI32, i_to_u32, u_to_i32,
  i_to_u32-u_to_i32, append-nil,
}
use sharak.Protocol.Wire.{ver_byte, type_accel}
use sharak.Protocol.Payload.{le16, le32, Envelope, Axes, sk_payload_unpack, sk_payload_pack}
use sharak.Protocol.Payload.Pack.{accel_message}
use sharak.Protocol.Payload.Whole.{sk_payload_pack_whole}
use sharak.Protocol.Payload.RoundTrip.{assign_envelope, assign_axes, unpack-accel_message}
use sharak.Protocol.Payload.Bytes.{le16_lem, le32_lem}

All-drop : (n : ℕ) (xs : List ℕ) → All IsU8 xs → All IsU8 (drop n xs)
All-drop zero xs h = h
All-drop (suc n) [] h = h
All-drop (suc n) (x ∷ xs) (u, h) = All-drop n xs h

-- The first two bytes of a string are a 16-bit field, the first four a 32-bit one.
field16 :
    (xs : List ℕ) → 2 ≤ length xs → All IsU8 xs → (u : ℕ) × IsU16 u × (xs ≡ le16 u ++ drop 2 xs)
field16 [] h bytes = absurd (omega arith)
field16 (a ∷ []) h bytes = absurd (omega arith)
field16 (a ∷ b ∷ rest) h (ha, (hb, hs)) =
    let u = a + b * 2 ^ 8 in
    let first : u % 256 ≡ a = omega arith in
    let second : u / 2 ^ 8 % 256 ≡ b = omega arith in
    (u, omega arith, rw (le16_lem u, first, second))

field32 :
    (xs : List ℕ)
    → 4 ≤ length xs
    → All IsU8 xs
    → (z : ℤ) × IsI32 z × (xs ≡ le32 (i_to_u32 z) ++ drop 4 xs)
field32 [] h bytes = absurd (omega arith)
field32 (a ∷ []) h bytes = absurd (omega arith)
field32 (a ∷ b ∷ []) h bytes = absurd (omega arith)
field32 (a ∷ b ∷ c ∷ []) h bytes = absurd (omega arith)
field32 (a ∷ b ∷ c ∷ d ∷ rest) h (ha, (hb, (hc, (hd, hs)))) =
    let u = a + b * 2 ^ 8 + c * 2 ^ 16 + d * 2 ^ 24 in
    let (range, back) = i_to_u32-u_to_i32 u (omega arith) in
    let first : u % 256 ≡ a = omega arith in
    let second : u / 2 ^ 8 % 256 ≡ b = omega arith in
    let third : u / 2 ^ 16 % 256 ≡ c = omega arith in
    let fourth : u / 2 ^ 24 % 256 ≡ d = omega arith in
    (u_to_i32 u, range, rw (back, le32_lem u, first, second, third, fourth))

-- Every string of 14 bytes behind the version and the type is an accelerometer message.
pub accel_message-surjective :
    (rest : List ℕ)
    → length rest ≡ 14
    → All IsU8 rest
    → (seq : ℕ) × (x : ℤ) × (y : ℤ) × (z : ℤ) × IsU16 seq
      × IsI32 x
      × IsI32 y
      × IsI32 z
      × (ver_byte ∷ type_accel ∷ rest ≡ accel_message seq x y z)
unfolding accel_message
accel_message-surjective rest size bytes =
    let (seq, hs, es) = field16 rest (omega arith) bytes in
    let r1 = drop 2 rest in
    let b1 = All-drop 2 rest bytes in
    let (x, hx, ex) = field32 r1 (omega (arith, length-drop 2 rest)) b1 in
    let r2 = drop 4 r1 in
    let b2 = All-drop 4 r1 b1 in
    let size2 : length r2 ≡ 8 = omega (arith, length-drop 2 rest, length-drop 4 r1) in
    let (y, hy, ey) = field32 r2 (omega arith) b2 in
    let r3 = drop 4 r2 in
    let b3 = All-drop 4 r2 b2 in
    let size3 : length r3 ≡ 4 = omega (arith, length-drop 4 r2) in
    let (z, hz, ez) = field32 r3 (omega arith) b3 in
    let none_more = none_left (drop 4 r3) (omega (arith, length-drop 4 r3)) in
    let last : r3 ≡ le32 (i_to_u32 z) =
      ez ∙ (ap (λ t. le32 (i_to_u32 z) ++ t) none_more ∙ append-nil (le32 (i_to_u32 z))) in
    let whole : rest ≡ le16 seq ++ (le32 (i_to_u32 x) ++ (le32 (i_to_u32 y) ++ le32 (i_to_u32 z))) =
      es
      ∙ ap (λ t. le16 seq ++ t)
          (ex ∙ ap (λ t. le32 (i_to_u32 x) ++ t) (ey ∙ ap (λ t. le32 (i_to_u32 y) ++ t) last)) in
    (seq, x, y, z, hs, hx, hy, hz, ap (λ t. ver_byte ∷ type_accel ∷ t) whole)

-- The inverse direction of the round trip: whatever 14 bytes follow the version and the type of an
-- accelerometer message, `sk_payload_unpack` succeeds with values in the ranges of their types, and
-- `sk_payload_pack` makes the same 16 bytes of these values in a buffer of 16 bytes, whatever that
-- held.
pub unpack_pack_roundtrip :
    (rest : List ℕ) (env : Envelope) (axes : Axes) (buf : List ℕ)
    → length rest ≡ 14
    → All IsU8 rest
    → length buf ≡ 16
    → let bytes = ver_byte ∷ type_accel ∷ rest in
      (seq : ℕ) × (x : ℤ) × (y : ℤ) × (z : ℤ) × IsU16 seq
      × IsI32 x
      × IsI32 y
      × IsI32 z
      × (sk_payload_unpack (some bytes) 16 env axes
          ≡ some (pos 0, assign_envelope env type_accel seq, assign_axes axes x y z))
      × (sk_payload_pack (some buf) 16 seq x y z ≡ some (pos 16, some bytes))
unpack_pack_roundtrip rest env axes buf size bytes room =
    let (seq, x, y, z, hs, hx, hy, hz, e) = accel_message-surjective rest size bytes in
    (
      seq,
      x,
      y,
      z,
      hs,
      hx,
      hy,
      hz,
      ap (λ t. sk_payload_unpack (some t) 16 env axes)
            (e ∙ sym (append-nil (accel_message seq x y z)))
          ∙ unpack-accel_message seq x y z [] 16 env axes hs hx hy hz (omega arith),
      sk_payload_pack_whole buf seq x y z room ∙ ap (λ t. some (pos 16, some t)) (sym e),
    )
