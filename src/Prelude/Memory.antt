-- ===== src/Prelude/Memory.antt =====
-- Memory of C: a pointer that may be NULL, an array behind it, and faults.
use mathlib.Core.Bool.{false, Bool, true}
use Prim.Native.Nat.{ℕ, zero, suc, ◌+◌, ◌≤◌, ◌<◌}
use mathlib.Core.Path.{◌≡◌, refl, ap, ◌∙◌}
use mathlib.Core.List.{List, [], ◌∷◌, ◌++◌, append_assoc}
use mathlib.Core.Option.{Option, none, some}
use native.Mathlib.Omega.{arith}
use mathlib.Core.Logic.{◌≢◌}
use sharak.Prelude.Tests.{if◌then◌else◌}
use sharak.Prelude.Lists.{length, get_elem?, drop, length-append, All}

-- `none` is NULL; `some x` points to `x`.
abbrev pub Ptr {ℓ} : Type ℓ → Type ℓ
Ptr A = Option A

-- `none` is an access out of range, or a read of a cell that was never written: what C leaves
-- undefined. `some a` is a run without such an access.
abbrev pub Run {ℓ} : Type ℓ → Type ℓ
Run A = Option A

infixl 5 ◌>>=◌
abbrev pub ◌>>=◌ {ℓ κ} : {A : Type ℓ} {B : Type κ} → Run A → (A → Run B) → Run B
none >>= f = none
some a >>= f = f a

-- `*p = v`, under `if (p != NULL)`.
abbrev pub assign {ℓ} : {A : Type ℓ} → Ptr A → A → Ptr A
assign none v = none
assign (some old) v = some v

module _ {ℓ} {A : Type ℓ} where
  -- `xs[i]`
  abbrev pub load : List A → ℕ → Run A
  load xs i = get_elem? xs i

  -- `xs[i] = v`
  abbrev pub store : List A → ℕ → A → Run (List A)
  store [] i v = none
  store (x ∷ xs) zero v = some (v ∷ xs)
  store (x ∷ xs) (suc i) v = do ys ← store xs i v; some (x ∷ ys)

  -- `xs[i] = v0; xs[i + 1] = v1; ...`
  abbrev pub store_all : List A → ℕ → List A → Run (List A)
  store_all xs i [] = some xs
  store_all xs i (v ∷ vs) = do ys ← store xs i v; store_all ys (i + 1) vs

-- A local array that is not initialised: `none` marks a cell that holds no value yet.
abbrev pub Locals : Type 0
Locals = List (Option ℕ)

-- `xs[i]` of a local array; an unwritten cell faults.
abbrev pub load_local : Locals → ℕ → Run ℕ
load_local xs i = do c ← load xs i; c

module _ {ℓ} {A : Type ℓ} where
  pub store-append :
      (done : List A) (x : A) (rest : List A) (v : A)
      → store (done ++ (x ∷ rest)) (length done) v ≡ some (done ++ (v ∷ rest))
  store-append [] x rest v = refl
  store-append (d ∷ done) x rest v =
      ap (λ m. m >>= λ ys. some (d ∷ ys)) (store-append done x rest v)

  -- Writes behind a prefix fill the cells that follow it.
  pub store_all-append :
      (done rest vs : List A)
      → length vs ≤ length rest
      → store_all (done ++ rest) (length done) vs ≡ some (done ++ (vs ++ drop (length vs) rest))
  store_all-append done rest [] h = refl
  store_all-append done [] (v ∷ vs) h = absurd (omega arith)
  store_all-append done (x ∷ rest) (v ∷ vs) h =
      let ih = store_all-append (done ++ (v ∷ [])) rest vs (omega arith) in
      rw (store-append done x rest v) (simp append_assoc at (rw length-append at ih))

-- `if (p != NULL) *p = <read>;`: the read is made only behind the test.
abbrev pub assign_run {ℓ} : {A : Type ℓ} → Ptr A → Run A → Run (Ptr A)
assign_run none read = some none
assign_run (some old) read = do v ← read; some (some v)

-- A run goes on from the value that its first part returns.
pub bind_some {ℓ κ} :
    {A : Type ℓ} {B : Type κ} (f : A → Run B) {m : Run A} {a : A} {r : Run B}
    → m ≡ some a
    → f a ≡ r
    → (m >>= f) ≡ r
bind_some f p q = ap (λ t. t >>= f) p ∙ q

-- What a run leaves, where it leaves something.
abbrev pub value_or {ℓ} : {A : Type ℓ} → A → Run A → A
value_or d none = d
value_or d (some a) = a

-- A test that is decided leaves its branch.
pub if_then {ℓ} :
    {A : Type ℓ} {b : Bool} {x r : A} (y : A) → b ≡ true → x ≡ r → (if b then x else y) ≡ r
if_then y e h = rw e h

pub if_else {ℓ} :
    {A : Type ℓ} {b : Bool} {y r : A} (x : A) → b ≡ false → y ≡ r → (if b then x else y) ≡ r
if_else x e h = rw e h

module _ {ℓ} {A : Type ℓ} where
  -- The array behind a write that is in range.
  abbrev pub set : List A → ℕ → A → List A
  set [] i v = []
  set (x ∷ xs) zero v = v ∷ xs
  set (x ∷ xs) (suc i) v = x ∷ set xs i v

  pub store-set : (xs : List A) (i : ℕ) (v : A) → i < length xs → store xs i v ≡ some (set xs i v)
  store-set [] i v h = absurd (omega arith)
  store-set (x ∷ xs) zero v h = refl
  store-set (x ∷ xs) (suc i) v h = bind_some _ (store-set xs i v (omega arith)) refl

  pub store_out : (xs : List A) (i : ℕ) (v : A) → length xs ≤ i → store xs i v ≡ none
  store_out [] i v h = refl
  store_out (x ∷ xs) zero v h = absurd (omega arith)
  store_out (x ∷ xs) (suc i) v h =
      ap (λ m. m >>= λ ys. some (x ∷ ys)) (store_out xs i v (omega arith))

  pub load_out : (xs : List A) (i : ℕ) → length xs ≤ i → load xs i ≡ none
  load_out [] i h = refl
  load_out (x ∷ xs) zero h = absurd (omega arith)
  load_out (x ∷ xs) (suc i) h = load_out xs i (omega arith)

  pub length-set : (xs : List A) (i : ℕ) (v : A) → length (set xs i v) ≡ length xs
  length-set [] i v = refl
  length-set (x ∷ xs) zero v = refl
  length-set (x ∷ xs) (suc i) v = ap suc (length-set xs i v)

  pub load-set_self : (xs : List A) (i : ℕ) (v : A) → i < length xs → load (set xs i v) i ≡ some v
  load-set_self [] i v h = absurd (omega arith)
  load-set_self (x ∷ xs) zero v h = refl
  load-set_self (x ∷ xs) (suc i) v h = load-set_self xs i v (omega arith)

  pub load-set_ne : (xs : List A) (i j : ℕ) (v : A) → i ≢ j → load (set xs i v) j ≡ load xs j
  load-set_ne [] i j v ne = refl
  load-set_ne (x ∷ xs) zero zero v ne = absurd (ne refl)
  load-set_ne (x ∷ xs) zero (suc j) v ne = refl
  load-set_ne (x ∷ xs) (suc i) zero v ne = refl
  load-set_ne (x ∷ xs) (suc i) (suc j) v ne = load-set_ne xs i j v (λ e. ne (ap suc e))

  pub All-set {κ} :
      (P : A → Type κ) (xs : List A) (i : ℕ) (v : A) → All P xs → P v → All P (set xs i v)
  All-set P [] i v h p = tt
  All-set P (x ∷ xs) zero v h p = (p, h.1)
  All-set P (x ∷ xs) (suc i) v h p = (h.0, All-set P xs i v h.1 p)

  -- A read in range gives an item, of which all holds that holds of all.
  pub load_in {κ} :
      (P : A → Type κ) (xs : List A) (i : ℕ)
      → All P xs
      → i < length xs
      → (v : A) × (load xs i ≡ some v) × P v
  load_in P [] i h lt = absurd (omega arith)
  load_in P (x ∷ xs) zero h lt = (x, refl, h.0)
  load_in P (x ∷ xs) (suc i) h lt = load_in P xs i h.1 (omega arith)

  pub load_hit : (xs : List A) (i : ℕ) → i < length xs → (v : A) × (load xs i ≡ some v)
  load_hit [] i h = absurd (omega arith)
  load_hit (x ∷ xs) zero h = (x, refl)
  load_hit (x ∷ xs) (suc i) h = load_hit xs i (omega arith)
