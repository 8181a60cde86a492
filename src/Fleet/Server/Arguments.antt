-- ===== src/Fleet/Server/Arguments.antt =====
-- The command line of the fleet server against the options that a caller means.
use Prim.Native.Nat.{max}
use sharak.Prelude.{
  ◌⊎◌, append-nil, ℕ, zero, suc, ◌%◌, ◌^◌, ◌<◌, ◌≡◌, ◌≢◌, refl, ap, ap₂, sym, ◌∙◌, arith, List, [],
  ◌∷◌, ◌++◌, pos, none, some, bind_some, true, false, Bool-cases, inl, inr, All, ◌==◌, ==_iff, u16,
}
use sharak.Fleet.Server.Decimal.{decimal, strtoul-decimal, strtol-decimal}
use sharak.Fleet.Server.{
  Options, parse_args, take_option, port_flag, rate_flag, same_text, at_least_one,
}

-- An option with its number, as words of the command line, and what it sets.
pub data Argument : Type 0 where
  set_port : ℕ → Argument
  set_rate : ℕ → Argument

abbrev pub number_of : Argument → ℕ
number_of (set_port n) = n
number_of (set_rate n) = n

unfoldable pub words : List Argument → List (List ℕ)
unfolding decimal
words [] = []
words (set_port n ∷ args) = port_flag ∷ decimal n ∷ words args
words (set_rate n ∷ args) = rate_flag ∷ decimal n ∷ words args

unfoldable pub settings : Options → List Argument → Options
settings o [] = o
settings o (set_port n ∷ args) = settings (record o { port = n % 2 ^ 16 }) args
settings o (set_rate n ∷ args) = settings (record o { rate = max 1 n }) args

same_text_lem : (xs ys : List ℕ) → same_text xs ys ≡ true → xs ≡ ys
same_text_lem [] [] e = refl
same_text_lem [] (y ∷ ys) e = cc
same_text_lem (x ∷ xs) [] e = cc
same_text_lem (x ∷ xs) (y ∷ ys) e = elim (Bool-cases (x == y)) [
  | inl same ↦
      let rest : same_text xs ys ≡ true = rw same at e in
      ap₂ (λ (c : ℕ) (cs : List ℕ). c ∷ cs) ((==_iff x y).0 same) (same_text_lem xs ys rest)
  | inr other ↦ let none_same : false ≡ true = rw other at e in cc
]

other_text : (xs ys : List ℕ) → xs ≢ ys → same_text xs ys ≡ false
other_text xs ys n = elim (Bool-cases (same_text xs ys)) [
  | inl same ↦ absurd (n (same_text_lem xs ys same))
  | inr other ↦ other
]

at_least_one_lem : (n : ℕ) → at_least_one (pos n) ≡ max 1 n
at_least_one_lem zero = refl
at_least_one_lem (suc n) = omega arith

take_option-port :
    (n : ℕ) (o : Options)
    → n < 2 ^ 63
    → take_option port_flag (decimal n) o ≡ some (record o { port = n % 2 ^ 16 })
unfolding take_option
take_option-port n o h = ap (λ (t : ℕ). some (record o { port = u16 t })) (strtoul-decimal n h)

take_option-rate :
    (n : ℕ) (o : Options)
    → n < 2 ^ 63
    → take_option rate_flag (decimal n) o ≡ some (record o { rate = max 1 n })
unfolding take_option
take_option-rate n o h =
    ap (λ z. some (record o { rate = at_least_one z })) (strtol-decimal n h)
    ∙ ap (λ (t : ℕ). some (record o { rate = t })) (at_least_one_lem n)

abbrev pub IsSmall : Argument → Type 0
IsSmall a = number_of a < 2 ^ 63

parse_args-append :
    (args : List Argument) (rest : List (List ℕ)) (o : Options)
    → All IsSmall args
    → parse_args (words args ++ rest) o ≡ parse_args rest (settings o args)
unfolding words settings parse_args
parse_args-append [] rest o h = refl
parse_args-append (set_port n ∷ args) rest o (small, h) =
    bind_some (λ o1. parse_args (words args ++ rest) o1) (take_option-port n o small)
      (parse_args-append args rest (record o { port = n % 2 ^ 16 }) h)
parse_args-append (set_rate n ∷ args) rest o (small, h) =
    bind_some (λ o1. parse_args (words args ++ rest) o1) (take_option-rate n o small)
      (parse_args-append args rest (record o { rate = max 1 n }) h)

usage :
    (flag : List ℕ) (rest : List (List ℕ)) (o : Options)
    → (rest ≡ []) ⊎ ((flag ≢ port_flag) × (flag ≢ rate_flag))
    → parse_args (flag ∷ rest) o ≡ none
unfolding parse_args take_option
usage flag [] o h = refl
usage flag (value ∷ rest) o (inl e) = cc
usage flag (value ∷ rest) o (inr (not_port, not_rate)) =
    rw (other_text flag port_flag not_port, other_text flag rate_flag not_rate) refl

-- The command line. Options in any number and order, each with its number in decimal below 2^63, are
-- all understood, and the last of each kind counts: the port is its number modulo 2^16, the rate its
-- number but at least 1. Behind any such options, a word that is no option, or an option at the end
-- without its number, makes `main` refuse the command line.
pub parse_args-words :
    (args : List Argument) (o : Options) (flag : List ℕ) (rest : List (List ℕ))
    → All IsSmall args
    → (rest ≡ []) ⊎ ((flag ≢ port_flag) × (flag ≢ rate_flag))
    → (parse_args (words args) o ≡ some (settings o args))
      × (parse_args (words args ++ (flag ∷ rest)) o ≡ none)
parse_args-words args o flag rest small bad = (
  ap (λ t. parse_args t o) (sym (append-nil (words args)))
      ∙ (parse_args-append args [] o small ∙ unfold parse_args in refl),
  parse_args-append args (flag ∷ rest) o small ∙ usage flag rest (settings o args) bad,
)
