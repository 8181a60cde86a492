-- ===== src/Firmware/Adxl345/Decode.antt =====
-- The conversion of raw counts to milli-g.
use sharak.Prelude.{
  ◌-◌, ℕ, zero, suc, ◌+◌, ◌*◌, ◌/◌, ◌≤◌, ◌<◌, ◌≡◌, refl, ap, arith, List, [], ◌∷◌, ◌++◌, some,
  bind_some, ℤ, pos, negsuc, load, IsI16, i_to_u16, u_to_i16, u_to_i16-i_to_u16, i_to_u16-IsU16,
  ◌^◌, ◌%◌, ◌∙◌,
}
use sharak.Protocol.Payload.{le16}
use sharak.Protocol.Payload.Bytes.{le16_lem, join16-le16}
use sharak.Firmware.Adxl345.{mg_num, neg, to_mg, axis, adxl345_decode}

axis-count :
    (raw : List ℕ) (i : ℕ) (z : ℤ)
    → IsI16 z
    → load raw i ≡ some (i_to_u16 z % 256)
    → load raw (i + 1) ≡ some (i_to_u16 z / 2 ^ 8 % 256)
    → axis raw i ≡ some (to_mg z)
unfolding axis
axis-count raw i z h lo hi =
    let back = ap u_to_i16 (join16-le16 (i_to_u16 z) (i_to_u16-IsU16 z)) ∙ u_to_i16-i_to_u16 z h in
    bind_some _ lo (bind_some _ hi (ap (λ c. some (to_mg c)) back))

adxl345_decode-axes :
    (raw : List ℕ) (x y z : ℤ)
    → axis raw 0 ≡ some x
    → axis raw 2 ≡ some y
    → axis raw 4 ≡ some z
    → adxl345_decode raw ≡ some (record { x_mg = x; y_mg = y; z_mg = z })
unfolding adxl345_decode
adxl345_decode-axes raw x y z hx hy hz = bind_some _ hx (bind_some _ hy (bind_some _ hz refl))

-- Three counts that the chip sends low byte first are read back with their signs, and scaled.
pub adxl345_decode-counts :
    (x y z : ℤ)
    → IsI16 x
    → IsI16 y
    → IsI16 z
    → adxl345_decode (le16 (i_to_u16 x) ++ (le16 (i_to_u16 y) ++ le16 (i_to_u16 z)))
      ≡ some (record { x_mg = to_mg x; y_mg = to_mg y; z_mg = to_mg z })
adxl345_decode-counts x y z hx hy hz =
    let bytes : ℤ → List ℕ = λ v. i_to_u16 v % 256 ∷ i_to_u16 v / 2 ^ 8 % 256 ∷ [] in
    let raw = bytes x ++ (bytes y ++ bytes z) in
    rw (le16_lem (i_to_u16 x)) (
      rw (le16_lem (i_to_u16 y)) (
        rw (le16_lem (i_to_u16 z)) (
          adxl345_decode-axes raw (to_mg x) (to_mg y) (to_mg z) (axis-count raw 0 x hx refl refl)
            (axis-count raw 2 y hy refl refl) (axis-count raw 4 z hz refl refl))))

-- |z|
abbrev pub abs : ℤ → ℕ
abs (pos n) = n
abs (negsuc n) = suc n

abs-neg : (n : ℕ) → abs (neg n) ≡ n
abs-neg zero = refl
abs-neg (suc n) = refl

-- `r` is 125 / 32 times the count, cut towards zero: it has the sign of the count, and its
-- absolute value is the largest whole number that is not above the quotient's.
abbrev pub IsScaled : ℤ → ℤ → Type 0
IsScaled (pos n) r = (m : ℕ) × (r ≡ pos m) × (m * 32 ≤ n * 125) × (n * 125 < (m + 1) * 32)
IsScaled (negsuc n) r =
    (m : ℕ) × (r ≡ negsuc m) × ((m + 1) * 32 ≤ (n + 1) * 125) × ((n + 1) * 125 < (m + 2) * 32)

neg-pred : (q : ℕ) → 0 < q → neg q ≡ negsuc (q - 1)
neg-pred zero h = absurd (omega (arith, h))
neg-pred (suc q) h = ap (λ (t : ℕ). negsuc t) (omega arith)

-- For a count of 16 bits `to_mg` gives 125 / 32 times the count, with the count's sign and cut
-- towards zero. The result is at most 128000 mg either way, and the product with the numerator,
-- which is formed first, is below 2 ^ 31 in absolute value, so that it fits in an `int32_t`.
pub to_mg-IsScaled :
    (v : ℤ) → IsI16 v → IsScaled v (to_mg v) × (abs (to_mg v) ≤ 128000) × (abs v * mg_num < 2 ^ 31)
unfolding to_mg
to_mg-IsScaled (pos n) h =
    ((n * 125 / 32, refl, omega arith, omega arith), omega arith, omega arith)
to_mg-IsScaled (negsuc n) h =
    let q : ℕ = suc n * 125 / 32 in
    (
      (q - 1, neg-pred q (omega arith), omega arith, omega arith),
      rw (abs-neg (suc n * 125 / 32)) (omega arith),
      omega arith,
    )
