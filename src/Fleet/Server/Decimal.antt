-- ===== src/Fleet/Server/Decimal.antt =====
-- Decimal numbers as `strtoul` and `strtol` of the fleet server read them.
use native.Mathlib.Decide.{dec_lt}
use mathlib.Core.Path.{subst}
use sharak.Prelude.{
  ℕ, zero, suc, ◌+◌, ◌-◌, ◌*◌, ◌/◌, ◌%◌, ◌^◌, ◌≤◌, ◌<◌, ◌≡◌, refl, ap, sym, ◌∙◌, arith, List, [],
  ◌∷◌, ◌++◌, pos, negsuc, Bool, true, false, All, All-append, if◌then◌else◌, ◌==◌, ltb, leb, ◌&&◌,
  ◌||◌, lt→ltb, le→ltb,
}
use sharak.Fleet.Server.{strtoul, strtol, digits_of, skip_space, signed_digits, minus}

-- A number in decimal, as a user types it; a number has at most as many digits as `fuel`.
pub digits : ℕ → ℕ → List ℕ
digits zero n = []
digits (suc fuel) n =
    let high = digits fuel (n / 10) in
    if ltb n 10 then (48 + n) ∷ [] else high ++ ((48 + n % 10) ∷ [])

unfoldable pub decimal : ℕ → List ℕ
unfolding digits
decimal n = digits (suc n) n

abbrev IsDigit : ℕ → Type 0
IsDigit c = (48 ≤ c) × (c ≤ 57)

digit_test : (c : ℕ) → IsDigit c → (leb 48 c && leb c 57) ≡ true
digit_test c h = ground arith

digits_of-append :
    (xs ys : List ℕ) (n : ℕ)
    → All IsDigit xs
    → digits_of (xs ++ ys) n ≡ digits_of ys (digits_of xs n)
digits_of-append [] ys n h = refl
digits_of-append (x ∷ xs) ys n (hx, h) =
    rw (digit_test x hx) (digits_of-append xs ys (n * 10 + (x - 48)) h)

last_digit : (n d : ℕ) → d < 10 → digits_of ((48 + d) ∷ []) n ≡ n * 10 + d
last_digit n d h = rw (digit_test (48 + d) (omega arith)) (omega arith)

-- The digits of a number are digits, stand for it, and are not none.
digits-IsDigit : (fuel n : ℕ) → All IsDigit (digits fuel n)
unfolding digits
digits-IsDigit zero n = tt
digits-IsDigit (suc fuel) n = elim (dec_lt n 10) [
  | yes small ↦ rw (lt→ltb n 10 small) (omega arith, tt)
  | no big ↦ rw (le→ltb n 10 (omega arith)) (
      All-append IsDigit (digits fuel (n / 10)) ((48 + n % 10) ∷ []) (digits-IsDigit fuel (n / 10))
        (omega arith, tt))
]

digits_of-digits : (fuel n : ℕ) → n < fuel → digits_of (digits fuel n) 0 ≡ n
unfolding digits
digits_of-digits zero n h = absurd (omega arith)
digits_of-digits (suc fuel) n h = elim (dec_lt n 10) [
  | yes small ↦ rw (lt→ltb n 10 small) (last_digit 0 n small ∙ omega arith)
  | no big ↦
      let high = digits_of-digits fuel (n / 10) (omega arith) in
      rw (le→ltb n 10 (omega arith)) (
        digits_of-append (digits fuel (n / 10)) ((48 + n % 10) ∷ []) 0
          (digits-IsDigit fuel (n / 10))
        ∙ (last_digit (digits_of (digits fuel (n / 10)) 0) (n % 10) (omega arith)
            ∙ omega (arith, high)))
]

digits_some : (fuel n : ℕ) → (c : ℕ) × (cs : List ℕ) × (digits (suc fuel) n ≡ c ∷ cs)
unfolding digits
digits_some fuel n = elim (dec_lt n 10) [
  | yes small ↦ (48 + n, [], rw (lt→ltb n 10 small))
  | no big ↦
      let (c, cs, e) = front (digits fuel (n / 10)) (48 + n % 10) in
      (c, cs, rw (le→ltb n 10 (omega arith)) e)
]
  where
    front : (xs : List ℕ) (d : ℕ) → (c : ℕ) × (cs : List ℕ) × (xs ++ (d ∷ []) ≡ c ∷ cs)
    front [] d = (d, [], refl)
    front (x ∷ xs) d = (x, xs ++ (d ∷ []), refl)

-- No white space and no sign in front of a digit.
signed_digits-digit :
    (c : ℕ) (cs : List ℕ)
    → IsDigit c
    → signed_digits (skip_space (c ∷ cs)) ≡ (false, digits_of (c ∷ cs) 0)
signed_digits-digit c cs h =
    let no_space : (c == 32 || (leb 9 c && leb c 13)) ≡ false = ground arith in
    let no_minus : (c == 45) ≡ false = ground arith in
    let no_plus : (c == 43) ≡ false = ground arith in rw no_space (rw no_minus (rw no_plus refl))

signed_digits-decimal : (n : ℕ) → signed_digits (skip_space (decimal n)) ≡ (false, n)
unfolding decimal
signed_digits-decimal n =
    let (c, cs, e) = digits_some n n in
    let first : IsDigit c = (subst (All IsDigit) e (digits-IsDigit (suc n) n)).0 in
    ap (λ t. signed_digits (skip_space t)) e
    ∙ (signed_digits-digit c cs first
        ∙ ap (λ (t : ℕ). (false, t))
            (ap (λ t. digits_of t 0) (sym e) ∙ digits_of-digits (suc n) n (omega arith)))

pub strtoul-decimal : (n : ℕ) → n < 2 ^ 63 → strtoul (decimal n) ≡ n
strtoul-decimal n h =
    ap
      (λ (p : Bool × ℕ).
        if ltb p.1 (2 ^ 64) then (if p.0 then (2 ^ 64 - p.1) % 2 ^ 64 else p.1) else 2 ^ 64 - 1)
      (signed_digits-decimal n)
    ∙ rw (lt→ltb n (2 ^ 64) (omega arith)) refl

pub strtol-decimal : (n : ℕ) → n < 2 ^ 63 → strtol (decimal n) ≡ pos n
strtol-decimal n h =
    ap
      (λ (p : Bool × ℕ).
        if p.0
        then (if ltb p.1 (2 ^ 63) then minus p.1 else negsuc (2 ^ 63 - 1))
        else (if ltb p.1 (2 ^ 63) then pos p.1 else pos (2 ^ 63 - 1)))
      (signed_digits-decimal n)
    ∙ rw (lt→ltb n (2 ^ 63) h) refl
