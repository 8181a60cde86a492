-- ===== src/Protocol/Payload/Tests.antt =====
-- Messages with concrete values.
use mathlib.Core.Equiv.{IsContr}
use sharak.Prelude.{
  ℤ, ℕ, ◌≡◌, ◌≤◌, refl, arith, List, [], ◌∷◌, ◌++◌, pos, negsuc, none, some, replicate, drop, ◌⊎◌,
  ◌<◌, IsU16, IsI32,
}
use sharak.Protocol.Payload.{
  sk_payload_pack, sk_payload_unpack, sk_pack_temp, sk_pack_current, sk_envelope_unpack,
  sk_unpack_temp, sk_unpack_current, Envelope, Axes, le16, le32,
}
use sharak.Protocol.Payload.Pack.{accel_message, temp_message, current_message, pack_outcomes}
use sharak.Protocol.Payload.Short.{short_roundtrips}
use sharak.Protocol.Payload.Canonical.{unpack_pack_roundtrip}
use sharak.Protocol.Payload.Values.{Values, InRange}
use sharak.Protocol.Payload.Unique.{sk_payload_pack_unique}
use sharak.Protocol.Payload.RoundTrip.{payload_roundtrip, assign_envelope, assign_axes}
use sharak.Protocol.Wire.{type_accel, type_temp, type_current}

abbrev blank : List ℕ
blank = replicate 16 0

abbrev env : Envelope
env = record { ver = some 0; type = some 0; seq = some 0 }

-- Y is skipped.
abbrev axes : Axes
axes = record { x_mg = some (pos 0); y_mg = none; z_mg = some (pos 0) }

-- The first golden frame's payload: sequence number 0x1234, 1, -1 and 1000 mg.
golden_payload :
    sk_payload_pack (some blank) 16 0x1234 (pos 1) (negsuc 0) (pos 1000)
    ≡ some (
      pos 16,
      some (1 ∷ 1 ∷ 0x34 ∷ 0x12 ∷ 1 ∷ 0 ∷ 0 ∷ 0 ∷ 255 ∷ 255 ∷ 255 ∷ 255 ∷ 0xe8 ∷ 3 ∷ 0 ∷ 0 ∷ []),
    )
unfolding sk_payload_pack le16 le32
golden_payload = refl

-- Room for 7 bytes: only a temperature message fits.
pack_outcomes_example :
    (((16 ≤ 7)
        × (sk_payload_pack (some blank) 7 9 (pos 1) (pos 2) (pos 3)
            ≡ some (pos 16, some (accel_message 9 (pos 1) (pos 2) (pos 3) ++ drop 16 blank))))
      ⊎ ((7 < 16)
          × (sk_payload_pack (some blank) 7 9 (pos 1) (pos 2) (pos 3)
              ≡ some (negsuc 0, some blank))))
    × (((6 ≤ 7)
          × (sk_pack_temp (some blank) 7 9 (pos 1)
              ≡ some (pos 6, some (temp_message 9 (pos 1) ++ drop 6 blank))))
        ⊎ ((7 < 6) × (sk_pack_temp (some blank) 7 9 (pos 1) ≡ some (negsuc 0, some blank))))
    × (((8 ≤ 7)
          × (sk_pack_current (some blank) 7 9 (pos 1)
              ≡ some (pos 8, some (current_message 9 (pos 1) ++ drop 8 blank))))
        ⊎ ((7 < 8) × (sk_pack_current (some blank) 7 9 (pos 1) ≡ some (negsuc 0, some blank))))
pack_outcomes_example = pack_outcomes blank 7 9 (pos 1) (pos 2) (pos 3) (omega arith)

payload_roundtrip_example :
    (out : List ℕ) × (sk_payload_pack (some blank) 16 7 (pos 1) (negsuc 1) (pos 3)
      ≡ some (pos 16, some out))
    × (sk_payload_unpack (some out) 16 env axes
        ≡ some
            (pos 0, assign_envelope env type_accel 7, assign_axes axes (pos 1) (negsuc 1) (pos 3)))
payload_roundtrip_example =
    payload_roundtrip blank 16 7 (pos 1) (negsuc 1) (pos 3) env axes (omega arith) (omega arith)
      (omega arith) (omega arith) (omega arith) (omega arith)

-- -2 mg on Y, and 14 bytes that no packer made.
abbrev some_bytes : List ℕ
some_bytes = 7 ∷ 0 ∷ 1 ∷ 0 ∷ 0 ∷ 0 ∷ 0xfe ∷ 0xff ∷ 0xff ∷ 0xff ∷ 0x12 ∷ 0x34 ∷ 0x56 ∷ 0x78 ∷ []

unpack_pack_roundtrip_example :
    (seq : ℕ) × (x : ℤ) × (y : ℤ) × (z : ℤ) × IsU16 seq
    × IsI32 x
    × IsI32 y
    × IsI32 z
    × (sk_payload_unpack (some (1 ∷ 1 ∷ some_bytes)) 16 env axes
        ≡ some (pos 0, assign_envelope env type_accel seq, assign_axes axes x y z))
    × (sk_payload_pack (some blank) 16 seq x y z ≡ some (pos 16, some (1 ∷ 1 ∷ some_bytes)))
unpack_pack_roundtrip_example =
    unpack_pack_roundtrip some_bytes env axes blank refl (ground arith) refl

sk_payload_pack_unique_example : IsContr (
    (v : Values) × (InRange v
      × (sk_payload_pack (some blank) 16 v.seq v.x_mg v.y_mg v.z_mg
          ≡ some (pos 16, some (1 ∷ 1 ∷ some_bytes)))))
sk_payload_pack_unique_example = sk_payload_pack_unique some_bytes blank refl (ground arith) refl

short_roundtrips_example :
    ((out : List ℕ) × (sk_pack_temp (some blank) 16 7 (negsuc 272) ≡ some (pos 6, some out))
      × (sk_envelope_unpack (some out) 16 env ≡ some (pos 0, assign_envelope env type_temp 7))
      × (sk_unpack_temp (some out) 16 (some (pos 0)) ≡ some (pos 0, some (negsuc 272))))
    × ((out : List ℕ) × (sk_pack_current (some blank) 16 7 (pos 1500) ≡ some (pos 8, some out))
        × (sk_envelope_unpack (some out) 16 env ≡ some (pos 0, assign_envelope env type_current 7))
        × (sk_unpack_current (some out) 16 (some (pos 0)) ≡ some (pos 0, some (pos 1500))))
short_roundtrips_example =
    short_roundtrips blank 16 7 (negsuc 272) (pos 1500) env (some (pos 0)) (omega arith)
      (omega arith) (omega arith) (omega arith) (omega arith)
