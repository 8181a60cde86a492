-- ===== src/Protocol/Payload/Unique.antt =====
-- The wire format of accelerometer messages as a bijection.
use native.Mathlib.Nat.{ℕ_set}
use native.Mathlib.Bridge.{le_prop}
use mathlib.Core.Equiv.{IsContr}
use mathlib.Core.HLevel.{Σ_prop_path}
use sharak.Prelude.{
  ℕ, ◌≡◌, sym, ◌∙◌, List, ◌∷◌, ℤ, pos, negsuc, some, length, Ptr, Run, All, IsU8, IsI32,
}
use sharak.Protocol.Wire.{ver_byte, type_accel}
use sharak.Protocol.Payload.{sk_payload_pack}
use sharak.Protocol.Payload.Whole.{sk_payload_pack_whole}
use sharak.Protocol.Payload.Values.{
  Values, InRange, message_of, message_of-injective, filled_envelope, filled_axes,
}
use sharak.Protocol.Payload.Canonical.{unpack_pack_roundtrip}

IsI32-prop : (z : ℤ) → IsProp (IsI32 z)
IsI32-prop (pos n) = hlevel le_prop
IsI32-prop (negsuc n) = hlevel le_prop

result-set : IsSet (Run (ℤ × Ptr (List ℕ)))
result-set = hlevel ℕ_set

InRange-prop : (v : Values) → IsProp (InRange v)
InRange-prop v = hlevel (IsI32-prop, le_prop)

-- What a buffer of 16 bytes is packed to.
abbrev PacksTo : List ℕ → List ℕ → Values → Type 0
PacksTo buf bytes v =
    sk_payload_pack (some buf) 16 v.seq v.x_mg v.y_mg v.z_mg ≡ some (pos 16, some bytes)

PacksTo-message_of :
    (buf bytes : List ℕ) (v : Values) → length buf ≡ 16 → PacksTo buf bytes v → message_of v ≡ bytes
PacksTo-message_of buf bytes v room e =
    let same = sym (sk_payload_pack_whole buf v.seq v.x_mg v.y_mg v.z_mg room) ∙ e in cc

-- The wire format of accelerometer messages is exact: for every 14 bytes behind the version and the
-- type there is one and only one choice of values, in the ranges of their types, that
-- `sk_payload_pack` packs to these 16 bytes in a buffer of 16 bytes, whatever that held.
pub sk_payload_pack_unique :
    (rest buf : List ℕ)
    → length rest ≡ 14
    → All IsU8 rest
    → length buf ≡ 16
    → IsContr (
        (v : Values) × (InRange v
          × (sk_payload_pack (some buf) 16 v.seq v.x_mg v.y_mg v.z_mg
              ≡ some (pos 16, some (ver_byte ∷ type_accel ∷ rest)))))
sk_payload_pack_unique rest buf size bytes room =
    let (seq, x, y, z, hs, hx, hy, hz, _, packs) =
      unpack_pack_roundtrip rest filled_envelope filled_axes buf size bytes room in
    let v : Values = record { seq = seq; x_mg = x; y_mg = y; z_mg = z } in
    let to_bytes = PacksTo-message_of buf (ver_byte ∷ type_accel ∷ rest) in
    (
      (v, ((hs, hx, hy, hz), packs)),
      λ (w, (hw, e)).
          Σ_prop_path (λ u. hlevel (InRange-prop, result-set))
            (message_of-injective w v hw (hs, hx, hy, hz)
              (to_bytes w room e ∙ sym (to_bytes v room packs))),
    )
