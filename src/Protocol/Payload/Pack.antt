-- ===== src/Protocol/Payload/Pack.antt =====
-- What the packers write, on every branch.
use native.Mathlib.Decide.{dec_le}
use sharak.Prelude.{
  ℕ, ◌+◌, ◌≤◌, ◌≡◌, refl, ap, ◌∙◌, arith, List, [], ◌∷◌, ◌++◌, ℤ, pos, some, length, drop,
  drop-drop, length-drop, le→ltb, i_to_u16, i_to_u32, store_all, store_all-append, bind_some, Ptr,
  Run, negsuc, none, ◌⊎◌, ◌<◌, inl, inr, lt→ltb,
}
use sharak.Protocol.Wire.{payload_len, ver_byte, type_accel, type_temp, type_current, payload_min}
use sharak.Protocol.Payload.{le16, le32, sk_payload_pack, sk_pack_temp, sk_pack_current}

-- The wire format of the three messages.
unfoldable pub accel_message : ℕ → ℤ → ℤ → ℤ → List ℕ
unfolding le16 le32
accel_message seq x y z =
    (ver_byte ∷ type_accel ∷ le16 seq)
    ++ (le32 (i_to_u32 x) ++ (le32 (i_to_u32 y) ++ le32 (i_to_u32 z)))

unfoldable pub temp_message : ℕ → ℤ → List ℕ
unfolding le16
temp_message seq t = (ver_byte ∷ type_temp ∷ le16 seq) ++ le16 (i_to_u16 t)

unfoldable pub current_message : ℕ → ℤ → List ℕ
unfolding le16 le32
current_message seq c = (ver_byte ∷ type_current ∷ le16 seq) ++ le32 (i_to_u32 c)

-- `vs` goes behind the explicit prefix `done`, into a buffer that is used up to `length done`.
write_next :
    (buf done vs : List ℕ) (i : ℕ)
    → i ≡ length done
    → i + length vs ≤ length buf
    → store_all (done ++ drop i buf) i vs ≡ some (done ++ (vs ++ drop (i + length vs) buf))
write_next buf done vs i e h = rw e (
    store_all-append done (drop (length done) buf) vs
      (omega (arith, length-drop (length done) buf, e))
    ∙ ap (λ t. some (done ++ (vs ++ t))) (drop-drop (length vs) (length done) buf))

-- With room for 16 bytes `sk_payload_pack` writes the message, leaves what lies behind it, and
-- returns 16.
pub sk_payload_pack_ok :
    (buf : List ℕ) (cap seq : ℕ) (x y z : ℤ)
    → payload_len ≤ cap
    → cap ≤ length buf
    → sk_payload_pack (some buf) cap seq x y z
      ≡ some (pos 16, some (accel_message seq x y z ++ drop 16 buf))
unfolding sk_payload_pack accel_message
sk_payload_pack_ok buf cap seq x y z h k = rw (le→ltb cap 16 h) (
    bind_some _ (write_next buf [] env 0 refl (omega arith)) (
      bind_some _ (write_next buf env (le32 (i_to_u32 x)) 4 refl (omega arith)) (
        bind_some _
          (write_next buf (env ++ le32 (i_to_u32 x)) (le32 (i_to_u32 y)) 8 refl (omega arith))
          (bind_some _
            (write_next buf (env ++ (le32 (i_to_u32 x) ++ le32 (i_to_u32 y))) (le32 (i_to_u32 z)) 12
              refl (omega arith))
            refl))))
  where
    env : List ℕ
    env = ver_byte ∷ type_accel ∷ le16 seq

-- With room for 6 bytes `sk_pack_temp` writes the message and returns 6.
pub sk_pack_temp_ok :
    (buf : List ℕ) (cap seq : ℕ) (t : ℤ)
    → payload_min ≤ cap
    → cap ≤ length buf
    → sk_pack_temp (some buf) cap seq t ≡ some (pos 6, some (temp_message seq t ++ drop 6 buf))
unfolding sk_pack_temp temp_message
sk_pack_temp_ok buf cap seq t h k = rw (le→ltb cap 6 h) (
    bind_some _ (write_next buf [] env 0 refl (omega arith))
      (bind_some _ (write_next buf env (le16 (i_to_u16 t)) 4 refl (omega arith)) refl))
  where
    env : List ℕ
    env = ver_byte ∷ type_temp ∷ le16 seq

-- With room for 8 bytes `sk_pack_current` writes the message and returns 8.
pub sk_pack_current_ok :
    (buf : List ℕ) (cap seq : ℕ) (c : ℤ)
    → 8 ≤ cap
    → cap ≤ length buf
    → sk_pack_current (some buf) cap seq c
      ≡ some (pos 8, some (current_message seq c ++ drop 8 buf))
unfolding sk_pack_current current_message
sk_pack_current_ok buf cap seq c h k = rw (le→ltb cap 8 h) (
    bind_some _ (write_next buf [] env 0 refl (omega arith))
      (bind_some _ (write_next buf env (le32 (i_to_u32 c)) 4 refl (omega arith)) refl))
  where
    env : List ℕ
    env = ver_byte ∷ type_current ∷ le16 seq

-- A NULL buffer, or one that is too small, is refused with -1 by each packer and left as it was,
-- whatever the values are.
pub pack_refuses :
    (buf : Ptr (List ℕ)) (cap seq : ℕ) (x y z : ℤ)
    → let err : Run (ℤ × Ptr (List ℕ)) = some (negsuc 0, buf) in
      ((buf ≡ none) ⊎ (cap < 16) → sk_payload_pack buf cap seq x y z ≡ err)
      × ((buf ≡ none) ⊎ (cap < 6) → sk_pack_temp buf cap seq x ≡ err)
      × ((buf ≡ none) ⊎ (cap < 8) → sk_pack_current buf cap seq x ≡ err)
unfolding sk_payload_pack sk_pack_temp sk_pack_current
pack_refuses none cap seq x y z = (λ _. refl, λ _. refl, λ _. refl)
pack_refuses (some buf) cap seq x y z = (
  λ h. rw (lt→ltb cap 16 (small 16 h)),
  λ h. rw (lt→ltb cap 6 (small 6 h)),
  λ h. rw (lt→ltb cap 8 (small 8 h)),
)
  where
    small : (n : ℕ) → (some buf ≡ none) ⊎ (cap < n) → cap < n
    small n (inl e) = cc
    small n (inr l) = l

-- With a buffer that has the stated capacity, each packer decides by the size of its message, 16,
-- 6 or 8 bytes: with room for it, the message is written, the bytes behind it stay, and the size is
-- returned; without, -1 is returned and the buffer stays as it was.
pub pack_outcomes :
    (buf : List ℕ) (cap seq : ℕ) (x y z : ℤ)
    → cap ≤ length buf
    → (((16 ≤ cap)
          × (sk_payload_pack (some buf) cap seq x y z
              ≡ some (pos 16, some (accel_message seq x y z ++ drop 16 buf))))
        ⊎ ((cap < 16) × (sk_payload_pack (some buf) cap seq x y z ≡ some (negsuc 0, some buf))))
      × (((6 ≤ cap)
            × (sk_pack_temp (some buf) cap seq x
                ≡ some (pos 6, some (temp_message seq x ++ drop 6 buf))))
          ⊎ ((cap < 6) × (sk_pack_temp (some buf) cap seq x ≡ some (negsuc 0, some buf))))
      × (((8 ≤ cap)
            × (sk_pack_current (some buf) cap seq x
                ≡ some (pos 8, some (current_message seq x ++ drop 8 buf))))
          ⊎ ((cap < 8) × (sk_pack_current (some buf) cap seq x ≡ some (negsuc 0, some buf))))
pack_outcomes buf cap seq x y z fits =
    let refused = pack_refuses (some buf) cap seq x y z in
    (
      elim (dec_le 16 cap) [
        | yes h ↦ inl (h, sk_payload_pack_ok buf cap seq x y z h fits)
        | no h ↦ inr (omega arith, refused.0 (inr (omega arith)))
      ],
      elim (dec_le 6 cap) [
        | yes h ↦ inl (h, sk_pack_temp_ok buf cap seq x h fits)
        | no h ↦ inr (omega arith, refused.1 (inr (omega arith)))
      ],
      elim (dec_le 8 cap) [
        | yes h ↦ inl (h, sk_pack_current_ok buf cap seq x h fits)
        | no h ↦ inr (omega arith, refused.2 (inr (omega arith)))
      ],
    )
