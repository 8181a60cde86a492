-- ===== src/Prelude/Bits.antt =====
-- Laws of `&`, `|` and `^` on unsigned words, for every width, by induction on the digits.
use sharak.Prelude.Digits.{bit_and_digit, bit_or_digit, bit_xor_digit}
use Prim.Native.Nat.{
  bit_or-bitwise, bit_xor-bitwise, ℕ, zero, suc, ◌+◌, ◌-◌, ◌*◌, ◌/◌, ◌%◌, ◌^◌, ◌≤◌, ◌<◌, bit_and,
  bit_or, bit_xor,
}
use mathlib.Core.Path.{◌≡◌, refl, sym, ap, ◌∙◌}
use native.Mathlib.Nat.{
  pow-suc, one-le-pow, div-add-mod, div-div-eq-div-mul, mod-eq_of_lt, add-mul-mod_self_right,
}
use native.Mathlib.Omega.{arith}

-- Each law below is by induction on a bound `n` of the first number.
bit_and-zero_upto : (n a : ℕ) → a ≤ n → bit_and a 0 ≡ 0
bit_and-zero_upto n zero h = refl
bit_and-zero_upto zero (suc a) h = absurd (omega arith)
bit_and-zero_upto (suc n) (suc a) h =
    omega (arith, bit_and_digit (suc a) 0, bit_and-zero_upto n (suc a / 2) (omega arith))

pub bit_and-zero : (a : ℕ) → bit_and a 0 ≡ 0
bit_and-zero a = bit_and-zero_upto a a (omega arith)

bit_or-zero_upto : (n a : ℕ) → a ≤ n → bit_or a 0 ≡ a
bit_or-zero_upto n zero h = refl
bit_or-zero_upto zero (suc a) h = absurd (omega arith)
bit_or-zero_upto (suc n) (suc a) h =
    omega (arith, bit_or_digit (suc a) 0, bit_or-zero_upto n (suc a / 2) (omega arith))

pub bit_or-zero : (a : ℕ) → bit_or a 0 ≡ a
bit_or-zero a = bit_or-zero_upto a a (omega arith)

pub zero-bit_or : (b : ℕ) → bit_or 0 b ≡ b
zero-bit_or b = bit_or-bitwise 0 b

pub zero-bit_xor : (b : ℕ) → bit_xor 0 b ≡ b
zero-bit_xor b = bit_xor-bitwise 0 b

bit_xor_self_upto : (n a : ℕ) → a ≤ n → bit_xor a a ≡ 0
bit_xor_self_upto n zero h = refl
bit_xor_self_upto zero (suc a) h = absurd (omega arith)
bit_xor_self_upto (suc n) (suc a) h =
    omega (arith, bit_xor_digit (suc a) (suc a), bit_xor_self_upto n (suc a / 2) (omega arith))

pub bit_xor_self : (a : ℕ) → bit_xor a a ≡ 0
bit_xor_self a = bit_xor_self_upto a a (omega arith)

bit_xor-zero_upto : (n a : ℕ) → a ≤ n → bit_xor a 0 ≡ a
bit_xor-zero_upto n zero h = refl
bit_xor-zero_upto zero (suc a) h = absurd (omega arith)
bit_xor-zero_upto (suc n) (suc a) h =
    omega (arith, bit_xor_digit (suc a) 0, bit_xor-zero_upto n (suc a / 2) (omega arith))

pub bit_xor-zero : (a : ℕ) → bit_xor a 0 ≡ a
bit_xor-zero a = bit_xor-zero_upto a a (omega arith)

bit_xor_comm_upto : (n a b : ℕ) → a + b ≤ n → bit_xor a b ≡ bit_xor b a
bit_xor_comm_upto n zero b h = zero-bit_xor b ∙ sym (bit_xor-zero b)
bit_xor_comm_upto zero (suc a) b h = absurd (omega arith)
bit_xor_comm_upto (suc n) (suc a) b h = omega (
  arith,
  bit_xor_digit (suc a) b,
  bit_xor_digit b (suc a),
  bit_xor_comm_upto n (suc a / 2) (b / 2) (omega arith),
)

pub bit_xor_comm : (a b : ℕ) → bit_xor a b ≡ bit_xor b a
bit_xor_comm a b = bit_xor_comm_upto (a + b) a b (omega arith)

-- The halves and the lowest digit of an exclusive or.
pub bit_xor-div : (a b : ℕ) → bit_xor a b / 2 ≡ bit_xor (a / 2) (b / 2)
bit_xor-div a b = omega (arith, bit_xor_digit a b)

pub bit_xor-mod_two : (a b : ℕ) → bit_xor a b % 2 ≡ (a + b) % 2
bit_xor-mod_two a b = omega (arith, bit_xor_digit a b)

bit_xor_assoc_upto : (n a b c : ℕ) → a ≤ n → bit_xor (bit_xor a b) c ≡ bit_xor a (bit_xor b c)
bit_xor_assoc_upto n zero b c h =
    ap (λ (t : ℕ). bit_xor t c) (zero-bit_xor b) ∙ sym (zero-bit_xor (bit_xor b c))
bit_xor_assoc_upto zero (suc a) b c h = absurd (omega arith)
bit_xor_assoc_upto (suc n) (suc a) b c h = omega (
  arith,
  bit_xor_digit (bit_xor (suc a) b) c,
  bit_xor_digit (suc a) (bit_xor b c),
  ap (λ (t : ℕ). bit_xor t (c / 2)) (bit_xor-div (suc a) b),
  ap (λ (t : ℕ). bit_xor (suc a / 2) t) (bit_xor-div b c),
  bit_xor-mod_two (suc a) b,
  bit_xor-mod_two b c,
  bit_xor_assoc_upto n (suc a / 2) (b / 2) (c / 2) (omega arith),
)

pub bit_xor_assoc : (a b c : ℕ) → bit_xor (bit_xor a b) c ≡ bit_xor a (bit_xor b c)
bit_xor_assoc a b c = bit_xor_assoc_upto a a b c (omega arith)

-- Applying a mask twice gives the word back.
pub bit_xor_undo : (a b : ℕ) → bit_xor (bit_xor a b) b ≡ a
bit_xor_undo a b =
    bit_xor_assoc a b b ∙ (ap (λ (t : ℕ). bit_xor a t) (bit_xor_self b) ∙ bit_xor-zero a)

two_pow : (q k : ℕ) → q * 2 ^ suc k ≡ 2 * (q * 2 ^ k)
two_pow q k = omega (arith, ap (λ (t : ℕ). q * t) (pow-suc 2 k))

-- Words made of a high part and a field of `k` low bits.
pub bit_or_low : (k r q : ℕ) → r < 2 ^ k → bit_or r (q * 2 ^ k) ≡ r + q * 2 ^ k
bit_or_low zero zero q h = omega (arith, zero-bit_or (q * 1))
bit_or_low zero (suc r) q h = absurd (omega arith)
bit_or_low (suc k) r q h =
    ground (arith, bit_or_digit r (q * 2 ^ suc k), two_pow q k, pow-suc 2 k, bit_or_low k (r / 2) q)

pub bit_or_high : (k q r : ℕ) → r < 2 ^ k → bit_or (q * 2 ^ k) r ≡ q * 2 ^ k + r
bit_or_high zero q zero h = omega (arith, bit_or-zero (q * 1))
bit_or_high zero q (suc r) h = absurd (omega arith)
bit_or_high (suc k) q r h =
    ground
      (arith, bit_or_digit (q * 2 ^ suc k) r, two_pow q k, pow-suc 2 k, bit_or_high k q (r / 2))

pub bit_xor_parts :
    (k q r p s : ℕ)
    → r < 2 ^ k
    → s < 2 ^ k
    → bit_xor (q * 2 ^ k + r) (p * 2 ^ k + s) ≡ bit_xor q p * 2 ^ k + bit_xor r s
bit_xor_parts zero q r p s h g = ground (arith, zero-bit_xor 0)
bit_xor_parts (suc k) q r p s h g = ground (
  arith,
  bit_xor_digit (q * 2 ^ suc k + r) (p * 2 ^ suc k + s),
  bit_xor_digit r s,
  two_pow q k,
  two_pow p k,
  two_pow (bit_xor q p) k,
  pow-suc 2 k,
  bit_xor_parts k q (r / 2) p (s / 2),
)

pub bit_xor-lt : (k a b : ℕ) → a < 2 ^ k → b < 2 ^ k → bit_xor a b < 2 ^ k
bit_xor-lt zero zero zero h g = omega (arith, zero-bit_xor 0)
bit_xor-lt zero zero (suc b) h g = absurd (omega arith)
bit_xor-lt zero (suc a) b h g = absurd (omega arith)
bit_xor-lt (suc k) a b h g = omega (
  arith,
  bit_xor_digit a b,
  pow-suc 2 k,
  bit_xor-lt k (a / 2) (b / 2) (omega (arith, pow-suc 2 k)) (omega (arith, pow-suc 2 k)),
)

pub bit_xor-mod : (k a b : ℕ) → bit_xor a b % 2 ^ k ≡ bit_xor (a % 2 ^ k) (b % 2 ^ k)
bit_xor-mod k a b = ground (
  arith,
  one-le-pow k 2,
  div-add-mod a (2 ^ k),
  div-add-mod b (2 ^ k),
  bit_xor_parts k (a / 2 ^ k) (a % 2 ^ k) (b / 2 ^ k) (b % 2 ^ k),
  bit_xor-lt k (a % 2 ^ k) (b % 2 ^ k),
  add-mul-mod_self_right (bit_xor (a % 2 ^ k) (b % 2 ^ k)) (bit_xor (a / 2 ^ k) (b / 2 ^ k))
      (2 ^ k),
  mod-eq_of_lt (
      bit_xor-lt k (a % 2 ^ k) (b % 2 ^ k) (omega (arith, one-le-pow k 2))
        (omega (arith, one-le-pow k 2))),
)

-- `&` with a mask of `k` ones, and with one bit.
pub bit_and_field : (k q r : ℕ) → r < 2 ^ k → bit_and (q * 2 ^ k + r) (2 ^ k - 1) ≡ r
bit_and_field zero q zero h = bit_and-zero (q * 1 + 0)
bit_and_field zero q (suc r) h = absurd (omega arith)
bit_and_field (suc k) q r h = ground (
  arith,
  bit_and_digit (q * 2 ^ suc k + r) (2 ^ suc k - 1),
  two_pow q k,
  pow-suc 2 k,
  one-le-pow k 2,
  bit_and_field k q (r / 2),
)

pub bit_and_mask : (k a : ℕ) → bit_and a (2 ^ k - 1) ≡ a % 2 ^ k
bit_and_mask k a =
    ground (arith, one-le-pow k 2, div-add-mod a (2 ^ k), bit_and_field k (a / 2 ^ k) (a % 2 ^ k))

pub bit_and_bit : (k a : ℕ) → bit_and a (2 ^ k) ≡ a / 2 ^ k % 2 * 2 ^ k
bit_and_bit zero a = ground (arith, bit_and_digit a 1, bit_and-zero (a / 2))
bit_and_bit (suc k) a = ground (
  arith,
  bit_and_digit a (2 ^ suc k),
  pow-suc 2 k,
  bit_and_bit k (a / 2),
  div-div-eq-div-mul a 2 (2 ^ k),
  two_pow (a / 2 / 2 ^ k % 2) k,
)
