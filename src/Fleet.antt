-- ===== src/Fleet.antt =====
-- The fleet node of sim/fleet_node.c: a synthetic vibration signal, and the frame that carries a
-- reading, built by the firmware's own protocol functions.
pub mod Sent
pub mod Server
mod Tests
use sharak.Prelude.{
  ℕ, ◌+◌, ◌%◌, List, [], ◌∷◌, ℤ, pos, negsuc, Ptr, Run, some, ◌>>=◌, load, u16, u32, bit_and,
}
use sharak.Protocol.Payload.{sk_payload_pack}
use sharak.Protocol.Frame.{sk_frame_encode}
use sharak.Protocol.Wire.{payload_len}

-- `WOBBLE`
abbrev pub wobble : List ℤ
wobble = pos 0 ∷ pos 5 ∷ pos 8 ∷ pos 5 ∷ pos 0 ∷ negsuc 4 ∷ negsuc 7 ∷ negsuc 4 ∷ []

-- What `fleet_sample` writes through its out-pointers.
pub record Reading : Type 0 where
  pub seq : ℕ
  pub x_mg : ℤ
  pub y_mg : ℤ
  pub z_mg : ℤ

unfoldable pub fleet_sample : ℕ → Run Reading
fleet_sample phase = do
  x ← load wobble (phase % 8)
  y ← load wobble (u32 (phase + 2) % 8)
  some (record { seq = u16 (bit_and phase 0xffff); x_mg = x; y_mg = y; z_mg = pos 1000 })

-- The rest of `fleet_build_frame`, by the result of the packer.
encode_packed : ℤ → Ptr (List ℕ) → Ptr (List ℕ) → ℕ → Run (ℤ × Ptr (List ℕ))
unfolding sk_frame_encode
encode_packed (negsuc e) payload out cap = some (negsuc e, out)
encode_packed (pos plen) payload out cap = sk_frame_encode payload plen out cap

-- `payload` holds whatever the stack holds before it is packed.
unfoldable pub fleet_build_frame :
    (payload : List ℕ) → ℕ → ℤ → ℤ → ℤ → Ptr (List ℕ) → ℕ → Run (ℤ × Ptr (List ℕ))
unfolding sk_payload_pack encode_packed
fleet_build_frame payload seq x_mg y_mg z_mg out cap = do
  (plen, packed) ← sk_payload_pack (some payload) payload_len seq x_mg y_mg z_mg
  encode_packed plen packed out cap
