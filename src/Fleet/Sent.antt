-- ===== src/Fleet/Sent.antt =====
-- From a reading to the receiver: the frames that a node builds carry its readings.
use sharak.Prelude.{
  ℕ, ◌+◌, ◌-◌, ◌%◌, ◌^◌, ◌≤◌, ◌≡◌, refl, ap, ◌∙◌, arith, List, [], ◌∷◌, ◌++◌, ℤ, pos, some,
  bind_some, load_in, All, IsU16, IsI32, u16, u32, bit_and, length, take, drop, replicate, take_all,
}
use sharak.Prelude.Bits.{bit_and_mask}
use sharak.Protocol.Wire.{payload_len, payload_max, frame_max, frame_inner, dec_more, type_accel}
use sharak.Protocol.Payload.{sk_payload_unpack, Envelope, Axes}
use sharak.Protocol.Payload.Pack.{accel_message}
use sharak.Protocol.Payload.RoundTrip.{assign_envelope, assign_axes, unpack-accel_message}
use sharak.Protocol.Decoder.{Decoder, sk_decoder_init}
use sharak.Protocol.Decoder.Feed.{feed_all, encode_decode_roundtrip}
use sharak.Protocol.Payload.Whole.{length-accel_message, accel_message-IsU8, sk_payload_pack_whole}
use sharak.Fleet.{wobble, Reading, fleet_sample, fleet_build_frame, encode_packed}

pub wobble-IsI32 : All IsI32 wobble
wobble-IsI32 = ground arith

-- For every phase `fleet_sample` reads inside its table and gives a reading that a message can
-- carry: the sequence number is the phase modulo 2^16, and the axes are 32-bit numbers.
pub fleet_sample_ok :
    (phase : ℕ)
    → (r : Reading) × (fleet_sample phase ≡ some r)
      × (r.seq ≡ phase % 2 ^ 16)
      × IsU16 r.seq
      × IsI32 r.x_mg
      × IsI32 r.y_mg
      × IsI32 r.z_mg
unfolding fleet_sample
fleet_sample_ok phase =
    let (x, at_x, small_x) = load_in IsI32 wobble (phase % 8) wobble-IsI32 (omega arith) in
    let (y, at_y, small_y) =
      load_in IsI32 wobble (u32 (phase + 2) % 8) wobble-IsI32 (omega arith) in
    let seq = u16 (bit_and phase 0xffff) in
    let same : seq ≡ phase % 2 ^ 16 = omega (arith, bit_and_mask 16 phase) in
    (
      record { seq = seq; x_mg = x; y_mg = y; z_mg = pos 1000 },
      bind_some _ at_x (bind_some _ at_y refl),
      same,
      omega (arith, same),
      small_x,
      small_y,
      omega arith,
    )

-- A reading with 16-bit sequence number and 32-bit axes, through `fleet_build_frame`, an
-- initialised decoder that is fed the frame, and `sk_payload_unpack`: the closing flag returns 16,
-- and the fields that come out are the ones that went in.
pub reading_arrives :
    (payload : List ℕ) (seq : ℕ) (x y z : ℤ) (buf : List ℕ) (cap : ℕ) (st : Decoder) (out : List ℕ)
    (env : Envelope) (axes : Axes)
    → length payload ≡ payload_len
    → IsU16 seq
    → IsI32 x
    → IsI32 y
    → IsI32 z
    → frame_max ≤ cap
    → cap ≤ length buf
    → length st.buf ≡ frame_inner
    → payload_max ≤ length out
    → (n : ℕ) × (sent : List ℕ) × (fresh : Decoder) × (st' : Decoder) × (got : List ℕ)
      × (fleet_build_frame payload seq x y z (some buf) cap ≡ some (pos n, some sent))
      × (sk_decoder_init (some st) ≡ some fresh)
      × (feed_all (some fresh) (take n sent) (some out) (length out)
          ≡ some (replicate (n - 1) (dec_more, some out) ++ ((pos 16, some got) ∷ []), some st'))
      × (sk_payload_unpack (some got) 16 env axes
          ≡ some (pos 0, assign_envelope env type_accel seq, assign_axes axes x y z))
unfolding fleet_build_frame encode_packed
reading_arrives payload seq x y z buf cap st out env axes size hs hx hy hz room fits acc oroom =
    let m = accel_message seq x y z in
    let whole : take 16 m ≡ m = take_all 16 m (omega (arith, length-accel_message seq x y z)) in
    let packed = sk_payload_pack_whole payload seq x y z size in
    let (n, sent, fresh, st', encoded, init, run) =
      encode_decode_roundtrip m 16 buf cap st out (length out)
        (omega (arith, length-accel_message seq x y z)) (omega arith) (omega arith)
        (accel_message-IsU8 seq x y z) room fits acc oroom (omega arith) in
    let unpacked =
      unpack-accel_message seq x y z (drop 16 out) 16 env axes hs hx hy hz (omega arith) in
    (
      n,
      sent,
      fresh,
      st',
      m ++ drop 16 out,
      bind_some _ packed encoded,
      init,
      run
          ∙ ap
              (λ t. some (
                replicate (n - 1) (dec_more, some out) ++ ((pos 16, some (t ++ drop 16 out)) ∷ []),
                some st',
              ))
              whole,
      unpacked,
    )
