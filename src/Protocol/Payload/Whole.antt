-- ===== src/Protocol/Payload/Whole.antt =====
-- A message that fills its buffer.
use sharak.Prelude.{
  none_left, ℕ, ◌≡◌, refl, ap, ◌∙◌, arith, List, ◌∷◌, ◌++◌, ℤ, pos, some, All, All-append, IsU8,
  i_to_u32, length, drop, length-drop, append-nil,
}
use sharak.Protocol.Wire.{payload_len, ver_byte, type_accel}
use sharak.Protocol.Payload.{le16, le32, sk_payload_pack}
use sharak.Protocol.Payload.Bytes.{le16-IsU8, le32-IsU8}
use sharak.Protocol.Payload.Pack.{accel_message, sk_payload_pack_ok}

pub length-accel_message : (seq : ℕ) (x y z : ℤ) → length (accel_message seq x y z) ≡ 16
unfolding accel_message le16 le32
length-accel_message seq x y z = refl

pub accel_message-IsU8 : (seq : ℕ) (x y z : ℤ) → All IsU8 (accel_message seq x y z)
unfolding accel_message
accel_message-IsU8 seq x y z =
    All-append IsU8 (ver_byte ∷ type_accel ∷ le16 seq)
      (le32 (i_to_u32 x) ++ (le32 (i_to_u32 y) ++ le32 (i_to_u32 z)))
      (omega arith, (omega arith, le16-IsU8 seq))
      (All-append IsU8 (le32 (i_to_u32 x)) (le32 (i_to_u32 y) ++ le32 (i_to_u32 z))
        (le32-IsU8 (i_to_u32 x))
        (All-append IsU8 (le32 (i_to_u32 y)) (le32 (i_to_u32 z)) (le32-IsU8 (i_to_u32 y))
          (le32-IsU8 (i_to_u32 z))))

-- A buffer of 16 bytes holds the message and nothing else.
pub sk_payload_pack_whole :
    (payload : List ℕ) (seq : ℕ) (x y z : ℤ)
    → length payload ≡ payload_len
    → sk_payload_pack (some payload) payload_len seq x y z
      ≡ some (pos 16, some (accel_message seq x y z))
sk_payload_pack_whole payload seq x y z size =
    let m = accel_message seq x y z in
    sk_payload_pack_ok payload payload_len seq x y z (omega arith) (omega arith)
    ∙ (ap (λ t. some (pos 16, some (m ++ t)))
          (none_left (drop 16 payload) (omega (arith, length-drop 16 payload)))
        ∙ ap (λ t. some (pos 16, some t)) (append-nil m))
