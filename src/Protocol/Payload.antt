-- ===== src/Protocol/Payload.antt =====
-- The payload packers and unpackers of protocol/src/protocol.c: accelerometer, temperature and
-- current messages behind a common envelope of four bytes, all little-endian.
pub mod Bytes
pub mod Pack
pub mod RoundTrip
pub mod Short
pub mod Whole
pub mod Canonical
pub mod Values
pub mod Unique
mod Tests
use sharak.Prelude.{
  ℕ, ◌+◌, List, [], ◌∷◌, ◌++◌, ℤ, pos, negsuc, Ptr, Run, none, some, ◌>>=◌, load, store_all,
  assign_run, ltb, if◌then◌else◌, u8, u16, u32, ◌<<<◌, ◌>>>◌, bit_and, bit_or, i_to_u16, i_to_u32,
  u_to_i16, u_to_i32,
}
use sharak.Protocol.Wire.{
  envelope_len, payload_len, payload_min, ver_byte, type_accel, type_temp, type_current,
}

-- `(uint8_t)((u >> k) & 0xFFu)`
pub byte_of : ℕ → ℕ → ℕ
byte_of u k = u8 (bit_and (u >>> k) 0xff)

-- The bytes of a 16-bit and of a 32-bit field, in the order in which they are written.
unfoldable pub le16 : ℕ → List ℕ
unfolding byte_of
le16 u = u8 (bit_and u 0xff) ∷ byte_of u 8 ∷ []

unfoldable pub le32 : ℕ → List ℕ
unfolding byte_of
le32 u = u8 (bit_and u 0xff) ∷ byte_of u 8 ∷ byte_of u 16 ∷ byte_of u 24 ∷ []

-- `sk_payload_pack`: the return value, and the buffer as it is left.
unfoldable pub sk_payload_pack : Ptr (List ℕ) → ℕ → ℕ → ℤ → ℤ → ℤ → Run (ℤ × Ptr (List ℕ))
unfolding le16 le32
sk_payload_pack none cap seq x_mg y_mg z_mg = some (negsuc 0, none)
sk_payload_pack (some buf) cap seq x_mg y_mg z_mg =
    if ltb cap payload_len then some (negsuc 0, some buf) else do
      b1 ← store_all buf 0 (ver_byte ∷ type_accel ∷ le16 seq)
      b2 ← store_all b1 4 (le32 (i_to_u32 x_mg))
      b3 ← store_all b2 8 (le32 (i_to_u32 y_mg))
      b4 ← store_all b3 12 (le32 (i_to_u32 z_mg))
      some (pos payload_len, some b4)

-- The fields that are read back: two and four bytes from index `i` on.
pub load_u16 : List ℕ → ℕ → Run ℕ
load_u16 buf i = do lo ← load buf i; hi ← load buf (i + 1); some (u16 (bit_or lo (hi <<< 8)))

pub load_u32 : List ℕ → ℕ → Run ℕ
load_u32 buf i = do
  b0 ← load buf i
  b1 ← load buf (i + 1)
  b2 ← load buf (i + 2)
  b3 ← load buf (i + 3)
  some (u32 (bit_or (bit_or (bit_or b0 (b1 <<< 8)) (b2 <<< 16)) (b3 <<< 24)))

pub load_i32 : List ℕ → ℕ → Run ℤ
unfolding load_u32
load_i32 buf i = do u ← load_u32 buf i; some (u_to_i32 u)

-- What the out-pointers of the envelope and of an accelerometer message point to.
pub record Envelope : Type 0 where
  pub ver : Ptr ℕ
  pub type : Ptr ℕ
  pub seq : Ptr ℕ

pub record Axes : Type 0 where
  pub x_mg : Ptr ℤ
  pub y_mg : Ptr ℤ
  pub z_mg : Ptr ℤ

-- The three assignments that `sk_payload_unpack` and `sk_envelope_unpack` begin with.
pub read_envelope : List ℕ → Envelope → Run Envelope
unfolding load_u16
read_envelope buf out = do
  v ← assign_run out.ver (load buf 0)
  t ← assign_run out.type (load buf 1)
  s ← assign_run out.seq (load_u16 buf 2)
  some (record { ver = v; type = t; seq = s })

unfoldable pub sk_payload_unpack : Ptr (List ℕ) → ℕ → Envelope → Axes → Run (ℤ × Envelope × Axes)
unfolding read_envelope load_i32
sk_payload_unpack none len env axes = some (negsuc 0, env, axes)
sk_payload_unpack (some buf) len env axes =
    if ltb len payload_len then some (negsuc 0, env, axes) else do
      e ← read_envelope buf env
      x ← assign_run axes.x_mg (load_i32 buf 4)
      y ← assign_run axes.y_mg (load_i32 buf 8)
      z ← assign_run axes.z_mg (load_i32 buf 12)
      some (pos 0, e, record { x_mg = x; y_mg = y; z_mg = z })

-- `put_envelope`
pub put_envelope : List ℕ → ℕ → ℕ → Run (List ℕ)
unfolding le16
put_envelope buf type seq = store_all buf 0 (ver_byte ∷ type ∷ le16 seq)

unfoldable pub sk_pack_temp : Ptr (List ℕ) → ℕ → ℕ → ℤ → Run (ℤ × Ptr (List ℕ))
unfolding put_envelope le16
sk_pack_temp none cap seq temp_centi_c = some (negsuc 0, none)
sk_pack_temp (some buf) cap seq temp_centi_c =
    if ltb cap payload_min then some (negsuc 0, some buf) else do
      b1 ← put_envelope buf type_temp seq
      b2 ← store_all b1 4 (le16 (i_to_u16 temp_centi_c))
      some (pos 6, some b2)

unfoldable pub sk_pack_current : Ptr (List ℕ) → ℕ → ℕ → ℤ → Run (ℤ × Ptr (List ℕ))
unfolding put_envelope le32
sk_pack_current none cap seq current_ma = some (negsuc 0, none)
sk_pack_current (some buf) cap seq current_ma = if ltb cap 8 then some (negsuc 0, some buf) else do
  b1 ← put_envelope buf type_current seq
  b2 ← store_all b1 4 (le32 (i_to_u32 current_ma))
  some (pos 8, some b2)

unfoldable pub sk_envelope_unpack : Ptr (List ℕ) → ℕ → Envelope → Run (ℤ × Envelope)
unfolding read_envelope
sk_envelope_unpack none len env = some (negsuc 0, env)
sk_envelope_unpack (some buf) len env =
    if ltb len envelope_len
    then some (negsuc 0, env)
    else do e ← read_envelope buf env; some (pos 0, e)

unfoldable pub sk_unpack_temp : Ptr (List ℕ) → ℕ → Ptr ℤ → Run (ℤ × Ptr ℤ)
unfolding load_u16
sk_unpack_temp none len temp = some (negsuc 0, temp)
sk_unpack_temp (some buf) len temp =
    if ltb len 6
    then some (negsuc 0, temp)
    else do t ← assign_run temp (do u ← load_u16 buf 4; some (u_to_i16 u)); some (pos 0, t)

unfoldable pub sk_unpack_current : Ptr (List ℕ) → ℕ → Ptr ℤ → Run (ℤ × Ptr ℤ)
unfolding load_i32
sk_unpack_current none len current = some (negsuc 0, current)
sk_unpack_current (some buf) len current =
    if ltb len 8
    then some (negsuc 0, current)
    else do c ← assign_run current (load_i32 buf 4); some (pos 0, c)
