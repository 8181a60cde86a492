-- ===== src/Protocol/Payload/RoundTrip.antt =====
-- Packing and unpacking are inverse to one another.
use sharak.Prelude.{
  ℕ, ◌≤◌, ◌≡◌, refl, ap, arith, List, [], ◌∷◌, ◌++◌, ℤ, pos, none, some, ◌>>=◌, length, drop,
  le→ltb, i_to_u16, i_to_u32, IsU16, IsU32, get_elem?-append_self, get_elem?-append_right, IsI16,
  IsI32, Run, Ptr, assign, assign_run, u_to_i32-i_to_u32, u_to_i16-i_to_u16, i_to_u32-IsU32,
  i_to_u16-IsU16, u_to_i16, bind_some,
}
use sharak.Protocol.Wire.{payload_len, payload_min, ver_byte, type_accel, type_temp, type_current}
use sharak.Protocol.Payload.{
  le16, le32, sk_payload_unpack, sk_unpack_temp, sk_unpack_current, Envelope, Axes, read_envelope,
  load_i32, load_u16, load_u32, sk_envelope_unpack, sk_payload_pack,
}
use sharak.Protocol.Payload.Bytes.{le16_lem, le32_lem, join16-le16, join32-le32}
use sharak.Protocol.Payload.Pack.{sk_payload_pack_ok, accel_message, temp_message, current_message}

-- What is behind the out-pointers when these values have been assigned through them.
abbrev pub assign_envelope : Envelope → ℕ → ℕ → Envelope
assign_envelope out type seq = record {
  ver = assign out.ver ver_byte;
  type = assign out.type type;
  seq = assign out.seq seq;
}

abbrev pub assign_axes : Axes → ℤ → ℤ → ℤ → Axes
assign_axes out x y z = record {
  x_mg = assign out.x_mg x;
  y_mg = assign out.y_mg y;
  z_mg = assign out.z_mg z;
}

assign_run-some :
    {A : Type 0} (p : Ptr A) (read : Run A) (v : A)
    → read ≡ some v
    → assign_run p read ≡ some (assign p v)
assign_run-some none read v e = refl
assign_run-some (some old) read v e = rw e

-- A field is read back behind any prefix, whatever follows it.
load_u16-le16 :
    (u : ℕ) (done rest : List ℕ)
    → IsU16 u
    → load_u16 (done ++ (le16 u ++ rest)) (length done) ≡ some u
unfolding load_u16
load_u16-le16 u done rest h = rw le16_lem (
    bind_some _ (get_elem?-append_self done _ _)
      (bind_some _ (get_elem?-append_right done _ 1) (ap some (join16-le16 u h))))

load_u32-le32 :
    (u : ℕ) (done rest : List ℕ)
    → IsU32 u
    → load_u32 (done ++ (le32 u ++ rest)) (length done) ≡ some u
unfolding load_u32
load_u32-le32 u done rest h = rw le32_lem (
    bind_some _ (get_elem?-append_self done _ _) (
      bind_some _ (get_elem?-append_right done _ 1) (
        bind_some _ (get_elem?-append_right done _ 2)
          (bind_some _ (get_elem?-append_right done _ 3) (ap some (join32-le32 u h))))))

load_i32-le32 :
    (z : ℤ) (done rest : List ℕ)
    → IsI32 z
    → load_i32 (done ++ (le32 (i_to_u32 z) ++ rest)) (length done) ≡ some z
unfolding load_i32
load_i32-le32 z done rest h =
    bind_some _ (load_u32-le32 (i_to_u32 z) done rest (i_to_u32-IsU32 z))
      (ap some (u_to_i32-i_to_u32 z h))

-- The envelope of any message that starts with the version, a type and a sequence number.
read_envelope_lem :
    (out : Envelope) (type seq : ℕ) (rest : List ℕ)
    → IsU16 seq
    → read_envelope ((ver_byte ∷ type ∷ le16 seq) ++ rest) out ≡ some (assign_envelope out type seq)
unfolding read_envelope
read_envelope_lem out type seq rest h = bind_some _ (assign_run-some out.ver _ _ refl) (
    bind_some _ (assign_run-some out.type _ _ refl) (
      bind_some _ (assign_run-some out.seq _ _ (load_u16-le16 seq (ver_byte ∷ type ∷ []) rest h))
        refl))

-- `sk_payload_unpack` reads every accelerometer message back, for each out-pointer that is not
-- NULL, and returns 0.
pub unpack-accel_message :
    (seq : ℕ) (x y z : ℤ) (rest : List ℕ) (len : ℕ) (env : Envelope) (axes : Axes)
    → IsU16 seq
    → IsI32 x
    → IsI32 y
    → IsI32 z
    → payload_len ≤ len
    → sk_payload_unpack (some (accel_message seq x y z ++ rest)) len env axes
      ≡ some (pos 0, assign_envelope env type_accel seq, assign_axes axes x y z)
unfolding sk_payload_unpack accel_message
unpack-accel_message seq x y z rest len env axes hs hx hy hz h = rw (le→ltb len 16 h) (
    bind_some _ (read_envelope_lem env type_accel seq (bx ++ (by' ++ (bz ++ rest))) hs) (
      bind_some _ (assign_run-some axes.x_mg _ _ (load_i32-le32 x head (by' ++ (bz ++ rest)) hx)) (
        bind_some _ (assign_run-some axes.y_mg _ _ (load_i32-le32 y (head ++ bx) (bz ++ rest) hy)) (
          bind_some _
            (assign_run-some axes.z_mg _ _ (load_i32-le32 z (head ++ (bx ++ by')) rest hz)) refl))))
  where
    head : List ℕ
    head = ver_byte ∷ type_accel ∷ le16 seq

    bx : List ℕ
    bx = le32 (i_to_u32 x)

    by' : List ℕ
    by' = le32 (i_to_u32 y)

    bz : List ℕ
    bz = le32 (i_to_u32 z)

-- A temperature message gives its envelope to `sk_envelope_unpack` and its value to
-- `sk_unpack_temp`.
pub unpack-temp_message :
    (seq : ℕ) (t : ℤ) (rest : List ℕ) (len : ℕ) (env : Envelope) (out : Ptr ℤ)
    → IsU16 seq
    → IsI16 t
    → payload_min ≤ len
    → (sk_envelope_unpack (some (temp_message seq t ++ rest)) len env
        ≡ some (pos 0, assign_envelope env type_temp seq))
      × (sk_unpack_temp (some (temp_message seq t ++ rest)) len out ≡ some (pos 0, assign out t))
unfolding sk_envelope_unpack sk_unpack_temp temp_message
unpack-temp_message seq t rest len env out hs ht h = (
  rw (le→ltb len 4 (omega arith))
      (bind_some _ (read_envelope_lem env type_temp seq (body ++ rest) hs) refl),
  rw (le→ltb len 6 h) (bind_some _ (assign_run-some out _ t value) refl),
)
  where
    head : List ℕ
    head = ver_byte ∷ type_temp ∷ le16 seq

    body : List ℕ
    body = le16 (i_to_u16 t)

    value : (load_u16 (head ++ (body ++ rest)) 4 >>= λ u. some (u_to_i16 u)) ≡ some t
    value =
        bind_some (λ u. some (u_to_i16 u)) (load_u16-le16 (i_to_u16 t) head rest (i_to_u16-IsU16 t))
          (ap some (u_to_i16-i_to_u16 t ht))

-- A current message gives its envelope to `sk_envelope_unpack` and its value to
-- `sk_unpack_current`.
pub unpack-current_message :
    (seq : ℕ) (c : ℤ) (rest : List ℕ) (len : ℕ) (env : Envelope) (out : Ptr ℤ)
    → IsU16 seq
    → IsI32 c
    → 8 ≤ len
    → (sk_envelope_unpack (some (current_message seq c ++ rest)) len env
        ≡ some (pos 0, assign_envelope env type_current seq))
      × (sk_unpack_current (some (current_message seq c ++ rest)) len out
          ≡ some (pos 0, assign out c))
unfolding sk_envelope_unpack sk_unpack_current current_message
unpack-current_message seq c rest len env out hs hc h = (
  rw (le→ltb len 4 (omega arith))
      (bind_some _ (read_envelope_lem env type_current seq (le32 (i_to_u32 c) ++ rest) hs) refl),
  rw (le→ltb len 8 h) (bind_some _ (assign_run-some out _ c (load_i32-le32 c head rest hc)) refl),
)
  where
    head : List ℕ
    head = ver_byte ∷ type_current ∷ le16 seq

-- A packed accelerometer message is unpacked to the values that were packed, if they fit their
-- types and the buffer has room for 16 bytes; the packer returns 16 and the unpacker 0.
pub payload_roundtrip :
    (buf : List ℕ) (cap seq : ℕ) (x y z : ℤ) (env : Envelope) (axes : Axes)
    → payload_len ≤ cap
    → cap ≤ length buf
    → IsU16 seq
    → IsI32 x
    → IsI32 y
    → IsI32 z
    → (out : List ℕ) × (sk_payload_pack (some buf) cap seq x y z ≡ some (pos 16, some out))
      × (sk_payload_unpack (some out) cap env axes
          ≡ some (pos 0, assign_envelope env type_accel seq, assign_axes axes x y z))
payload_roundtrip buf cap seq x y z env axes h k hs hx hy hz = (
  accel_message seq x y z ++ drop 16 buf,
  sk_payload_pack_ok buf cap seq x y z h k,
  unpack-accel_message seq x y z (drop 16 buf) cap env axes hs hx hy hz h,
)
