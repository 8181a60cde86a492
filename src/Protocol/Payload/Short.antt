-- ===== src/Protocol/Payload/Short.antt =====
-- The short messages there and back.
use sharak.Prelude.{
  ℕ, ◌≤◌, ◌≡◌, arith, List, ◌++◌, ℤ, pos, some, length, drop, Ptr, IsU16, IsI16, IsI32, assign,
}
use sharak.Protocol.Wire.{payload_min, type_temp, type_current}
use sharak.Protocol.Payload.{
  sk_unpack_temp, sk_unpack_current, Envelope, sk_envelope_unpack, sk_pack_temp, sk_pack_current,
}
use sharak.Protocol.Payload.Pack.{
  sk_pack_temp_ok, sk_pack_current_ok, temp_message, current_message,
}
use sharak.Protocol.Payload.RoundTrip.{assign_envelope, unpack-temp_message, unpack-current_message}

-- A temperature message takes 6 bytes: its envelope and its value are read back.
pub temp_roundtrip :
    (buf : List ℕ) (cap seq : ℕ) (t : ℤ) (env : Envelope) (old : Ptr ℤ)
    → payload_min ≤ cap
    → cap ≤ length buf
    → IsU16 seq
    → IsI16 t
    → (out : List ℕ) × (sk_pack_temp (some buf) cap seq t ≡ some (pos 6, some out))
      × (sk_envelope_unpack (some out) cap env ≡ some (pos 0, assign_envelope env type_temp seq))
      × (sk_unpack_temp (some out) cap old ≡ some (pos 0, assign old t))
temp_roundtrip buf cap seq t env old h k hs ht =
    let (e, v) = unpack-temp_message seq t (drop 6 buf) cap env old hs ht h in
    (temp_message seq t ++ drop 6 buf, sk_pack_temp_ok buf cap seq t h k, e, v)

-- The same of a current message, which takes 8 bytes: its envelope and its value are read back.
pub current_roundtrip :
    (buf : List ℕ) (cap seq : ℕ) (c : ℤ) (env : Envelope) (old : Ptr ℤ)
    → 8 ≤ cap
    → cap ≤ length buf
    → IsU16 seq
    → IsI32 c
    → (out : List ℕ) × (sk_pack_current (some buf) cap seq c ≡ some (pos 8, some out))
      × (sk_envelope_unpack (some out) cap env ≡ some (pos 0, assign_envelope env type_current seq))
      × (sk_unpack_current (some out) cap old ≡ some (pos 0, assign old c))
current_roundtrip buf cap seq c env old h k hs hc =
    let (e, v) = unpack-current_message seq c (drop 8 buf) cap env old hs hc h in
    (current_message seq c ++ drop 8 buf, sk_pack_current_ok buf cap seq c h k, e, v)

-- The two short messages: a temperature message takes 6 bytes and a current message 8. With room
-- for them, and with values in the ranges of their types, the packers return these sizes, and the
-- unpackers give the envelope and the value back, each with the return value 0.
pub short_roundtrips :
    (buf : List ℕ) (cap seq : ℕ) (t c : ℤ) (env : Envelope) (old : Ptr ℤ)
    → 8 ≤ cap
    → cap ≤ length buf
    → IsU16 seq
    → IsI16 t
    → IsI32 c
    → ((out : List ℕ) × (sk_pack_temp (some buf) cap seq t ≡ some (pos 6, some out))
        × (sk_envelope_unpack (some out) cap env ≡ some (pos 0, assign_envelope env type_temp seq))
        × (sk_unpack_temp (some out) cap old ≡ some (pos 0, assign old t)))
      × ((out : List ℕ) × (sk_pack_current (some buf) cap seq c ≡ some (pos 8, some out))
          × (sk_envelope_unpack (some out) cap env
              ≡ some (pos 0, assign_envelope env type_current seq))
          × (sk_unpack_current (some out) cap old ≡ some (pos 0, assign old c)))
short_roundtrips buf cap seq t c env old h k hs ht hc = (
  temp_roundtrip buf cap seq t env old (omega arith) k hs ht,
  current_roundtrip buf cap seq c env old h k hs hc,
)
