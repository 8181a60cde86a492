-- ===== src/Protocol/Crc/Distance.antt =====
-- Two wrong bits in a frame change the checksum: x has an order modulo the polynomial that is larger
-- than a frame has bits.
use native.Mathlib.Decide.{ℕ_discrete}
use native.Mathlib.Nat.{pow-le-pow_right}
use sharak.Prelude.{
  ℕ, zero, suc, ◌+◌, ◌-◌, ◌*◌, ◌^◌, ◌≤◌, ◌<◌, ◌≡◌, ◌≢◌, refl, ap, ap₂, sym, ◌∙◌, arith, List, [],
  ◌∷◌, IsU8, bit_xor, length, All, Bool, true, false, ◌==◌, if◌then◌else◌, Bool-cases, inl, inr,
}
use sharak.Prelude.Bits.{bit_xor_undo, zero-bit_xor, bit_xor-zero, bit_xor_comm}
use sharak.Protocol.Crc.{shift_bit, shift_bits, crc_byte}
use sharak.Protocol.Crc.Register.{shift_bits_low, shift_bits-bit_xor, shift_bits-injective}
use sharak.Protocol.Crc.Fold.{crc_from}
use sharak.Protocol.Crc.Parity.{ones, weight}
use sharak.Protocol.Crc.TwoBits.{
  power, power-IsU16, power-add, low_power, ones_none, ones_one, ones_two, byte_at_zero,
  bit_at_zero, quiet_byte, quiet_bytes, carried_bytes, one_bit,
}

-- Whether none of the next `n` registers is 1.
order_check : ℕ → ℕ → Bool
unfolding shift_bit
order_check zero c = true
order_check (suc n) c = let rest = order_check n (shift_bit c) in if c == 1 then false else rest

order_check-later :
    (n c : ℕ) → order_check (suc n) c ≡ true → (c ≢ 1) × (order_check n (shift_bit c) ≡ true)
unfolding order_check
order_check-later n c e = elim (Bool-cases (c == 1)) [
  | inl now ↦ let stops : false ≡ true = rw now at e in cc
  | inr later ↦ (λ one. absurd (ground arith), rw later at e)
]

order_check-none : (n c k : ℕ) → order_check n c ≡ true → k < n → shift_bits k c ≢ 1
unfolding shift_bits
order_check-none zero c k e h one = absurd (omega arith)
order_check-none (suc n) c zero e h one = (order_check-later n c e).0 one
order_check-none (suc n) c (suc k) e h one =
    order_check-none n (shift_bit c) k ((order_check-later n c e).1) (omega arith) one

-- The powers of x do not come back to 1 within 160 rounds.
power-order : (k : ℕ) → 0 < k → k ≤ 160 → power k ≢ 1
unfolding power shift_bits order_check shift_bit
power-order zero h g one = absurd (omega arith)
power-order (suc k) h g one = order_check-none 160 (shift_bit 1) k refl (omega arith) one

power-differs : (t u : ℕ) → t < u → u ≤ 160 → power t ≢ power u
power-differs t u h g same =
    let k = u - t in
    let split : power u ≡ shift_bits t (power k) =
      ap power {x = u} {y = t + k} (omega arith) ∙ sym (power-add t k) in
    power-order k (omega arith) (omega arith) (
      sym (
        shift_bits-injective t 1 (power k) (omega arith) (power-IsU16 k)
          (unfold power in (same ∙ split))))

power_of_two : (j : ℕ) → j < 8 → 2 ^ j < 2 ^ 16
power_of_two j h =
    let most : 2 ^ j ≤ 2 ^ 7 = pow-le-pow_right (omega arith) {i = j} {j = 7} (omega arith) in
    omega (arith, most)

-- Two of them in one byte.
pair_in_byte :
    (x i j : ℕ)
    → IsU8 x
    → i < 8
    → j < 8
    → x ≡ bit_xor (2 ^ i) (2 ^ j)
    → crc_byte 0 x ≡ bit_xor (power (16 + i)) (power (16 + j))
pair_in_byte x i j hx hi hj e =
    byte_at_zero x hx
    ∙ (ap (shift_bits 16) (
          e
          ∙ ap₂ bit_xor (sym (low_power i (power_of_two i hi)))
              (sym (low_power j (power_of_two j hj))))
        ∙ (shift_bits-bit_xor 16 (power i) (power j) (power-IsU16 i) (power-IsU16 j)
            ∙ ap₂ bit_xor (power-add 16 i) (power-add 16 j)))

pair_then_quiet :
    (x i j : ℕ) (xs : List ℕ)
    → crc_byte 0 x ≡ bit_xor (power (16 + i)) (power (16 + j))
    → All IsU8 xs
    → weight xs ≡ 0
    → let n = 8 * length xs in
      crc_from (crc_byte 0 x) xs ≡ bit_xor (power (n + (16 + i))) (power (n + (16 + j)))
pair_then_quiet x i j xs first h quiet =
    let n = 8 * length xs in
    ap (λ (r : ℕ). crc_from r xs) first
    ∙ (quiet_bytes xs (bit_xor (power (16 + i)) (power (16 + j))) h quiet
        ∙ (shift_bits-bit_xor n (power (16 + i)) (power (16 + j)) (power-IsU16 (16 + i))
              (power-IsU16 (16 + j))
            ∙ ap₂ bit_xor (power-add n (16 + i)) (power-add n (16 + j))))

-- Two wrong bits.
two_bits :
    (xs : List ℕ)
    → All IsU8 xs
    → weight xs ≡ 2
    → (t : ℕ) × (u : ℕ) × (t < u)
      × (u < 8 * length xs + 16)
      × (crc_from 0 xs ≡ bit_xor (power t) (power u))
unfolding crc_from weight
two_bits [] h e = absurd (omega (arith, e))
two_bits (x ∷ xs) (hx, h) e = elim (ℕ_discrete (ones 8 x) 0) [
  | yes quiet ↦
      let (t, u, less, below, same) = two_bits xs h (omega (arith, e, quiet)) in
      let empty : crc_byte 0 x ≡ 0 =
        ap (crc_byte 0) (ones_none 8 x hx quiet)
        ∙ (quiet_byte 0 ∙ shift_bits_low 8 0 (omega arith)) in
      (t, u, less, omega arith, ap (λ (r : ℕ). crc_from r xs) empty ∙ same)
  | no here ↦ elim (ℕ_discrete (ones 8 x) 1) [
    | yes single ↦
        let (j, in_byte, at_j) = ones_one 8 x hx single in
        let (t, below, same) = one_bit xs h (omega (arith, e, single)) in
        let n = 8 * length xs in
        let c = power (16 + j) in
        let first : crc_byte 0 x ≡ bit_xor c 0 = bit_at_zero x j hx at_j ∙ sym (bit_xor-zero c) in
        (
          t,
          n + (16 + j),
          omega arith,
          omega arith,
          ap (λ (r : ℕ). crc_from r xs) first
              ∙ (carried_bytes xs c 0 (power-IsU16 (16 + j)) (omega arith)
                  ∙ (ap₂ bit_xor (power-add n (16 + j)) same
                      ∙ bit_xor_comm (power (n + (16 + j))) (power t))),
        )
    | no more ↦
        let (i, j, less, in_byte, at_both) = ones_two 8 x hx (omega (arith, e)) in
        let n = 8 * length xs in
        let first = pair_in_byte x i j hx (omega arith) in_byte at_both in
        (
          n + (16 + i),
          n + (16 + j),
          omega arith,
          omega arith,
          pair_then_quiet x i j xs first h (omega (arith, e)),
        )
  ]
]

-- Bytes of a frame's length with two ones leave a register that is not zero.
pub two_bits_differ :
    (xs : List ℕ) → All IsU8 xs → length xs ≤ 18 → weight xs ≡ 2 → crc_from 0 xs ≢ 0
two_bits_differ xs h size e none_left =
    let (t, u, less, below, same) = two_bits xs h e in
    let a = power t in
    let b = power u in
    let cancel : a ≡ b =
      sym (bit_xor_undo a b)
      ∙ (ap (λ (r : ℕ). bit_xor r b) (sym same ∙ none_left) ∙ zero-bit_xor b) in
    power-differs t u less (omega arith) cancel
