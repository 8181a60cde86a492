-- ===== src/Protocol/Payload/Values.antt =====
-- Accelerometer messages as the values that they carry, and a receiver that unpacks each message.
use sharak.Prelude.{
  ℕ, ◌≡◌, refl, ap, sym, ◌∙◌, arith, List, [], ◌∷◌, ◌++◌, ℤ, pos, some, none, ◌>>=◌, bind_some,
  length, map, Ptr, Run, All, IsU16, IsI32, append-nil,
}
use sharak.Protocol.Payload.{Envelope, Axes, sk_payload_unpack}
use sharak.Protocol.Payload.Pack.{accel_message}
use sharak.Protocol.Payload.Whole.{length-accel_message}
use sharak.Protocol.Payload.RoundTrip.{unpack-accel_message}

-- The values of an accelerometer message, and the ranges of their types.
pub record Values : Type 0 where
  pub seq : ℕ
  pub x_mg : ℤ
  pub y_mg : ℤ
  pub z_mg : ℤ

abbrev pub InRange : Values → Type 0
InRange v = IsU16 v.seq × IsI32 v.x_mg × IsI32 v.y_mg × IsI32 v.z_mg

abbrev pub message_of : Values → List ℕ
message_of v = accel_message v.seq v.x_mg v.y_mg v.z_mg

-- Reading through pointers that are all set.
abbrev pub filled_envelope : Envelope
filled_envelope = record { ver = some 0; type = some 0; seq = some 0 }

abbrev pub filled_axes : Axes
filled_axes = record { x_mg = some (pos 0); y_mg = some (pos 0); z_mg = some (pos 0) }

or_zero : Ptr ℤ → ℤ
or_zero none = pos 0
or_zero (some z) = z

values_of : Run (ℤ × Envelope × Axes) → Values
unfolding or_zero
values_of none = record { seq = 0; x_mg = pos 0; y_mg = pos 0; z_mg = pos 0 }
values_of (some (r, env, axes)) = record {
  seq = elim env.seq [ none ↦ 0 | some s ↦ s ];
  x_mg = or_zero axes.x_mg;
  y_mg = or_zero axes.y_mg;
  z_mg = or_zero axes.z_mg;
}

read_back : List ℕ → Values
unfolding values_of
read_back bytes = values_of (sk_payload_unpack (some bytes) 16 filled_envelope filled_axes)

read_back-message_of : (v : Values) → InRange v → read_back (message_of v ++ []) ≡ v
unfolding read_back
read_back-message_of v (hs, hx, hy, hz) = ap values_of (
    unpack-accel_message v.seq v.x_mg v.y_mg v.z_mg [] 16 filled_envelope filled_axes hs hx hy hz
      (omega arith))

pub message_of-injective :
    (v w : Values) → InRange v → InRange w → message_of v ≡ message_of w → v ≡ w
message_of-injective v w hv hw e =
    sym (read_back-message_of v hv) ∙ (ap (λ t. read_back (t ++ [])) e ∙ read_back-message_of w hw)

-- A receiver unpacks every message that it is handed, with all pointers set: the return values, and
-- what it reads.
unfoldable pub unpack_all : List (List ℕ) → Run (List (ℤ × Values))
unfolding values_of
unpack_all [] = some []
unpack_all (m ∷ ms) = do
  (r, env, axes) ← sk_payload_unpack (some m) (length m) filled_envelope filled_axes
  rest ← unpack_all ms
  some ((r, values_of (some (r, env, axes))) ∷ rest)

-- From the messages of values in their ranges it reads these values, and every call returns 0.
pub unpack_all-message_of :
    (vs : List Values)
    → All InRange vs
    → unpack_all (map message_of vs) ≡ some (map (λ v. (pos 0, v)) vs)
unfolding unpack_all
unpack_all-message_of [] h = refl
unpack_all-message_of (v ∷ vs) ((hs, hx, hy, hz), h) =
    let m = message_of v in
    let one =
      ap (λ t. sk_payload_unpack (some t) (length m) filled_envelope filled_axes)
        (sym (append-nil m))
      ∙ unpack-accel_message v.seq v.x_mg v.y_mg v.z_mg [] (length m) filled_envelope filled_axes hs
          hx hy hz (omega (arith, length-accel_message v.seq v.x_mg v.y_mg v.z_mg)) in
    bind_some _ one (bind_some _ (unpack_all-message_of vs h) refl)
