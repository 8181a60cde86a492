-- ===== src/Prelude/Outcomes.antt =====
-- What holds of every result of a run, read off its text: rules for `some`, a chain and a test.
use mathlib.Core.Path.{◌≡◌, refl, subst}
use mathlib.Core.Bool.{Bool, true, false}
use mathlib.Core.Option.{none, some}
use sharak.Prelude.Tests.{if◌then◌else◌}
use sharak.Prelude.Memory.{Run, ◌>>=◌}

module _ {ℓ κ} {B : Type ℓ} (P : B → Type κ) where
  abbrev pub Post : Run B → Type (ℓ ⊔ κ)
  Post m = (b : B) → m ≡ some b → P b

  pub Post-some : (x : B) → P x → Post (some x)
  Post-some x h b e = let same : x ≡ b = cc in subst P same h

  pub Post-bind {ℓ'} :
      {A : Type ℓ'} (m : Run A) (f : A → Run B) → ((a : A) → Post (f a)) → Post (m >>= f)
  Post-bind none f h b e = cc
  Post-bind (some a) f h b e = h a b e

  pub Post-if :
      (c : Bool) (x y : Run B)
      → (c ≡ true → Post x)
      → (c ≡ false → Post y)
      → Post (if c then x else y)
  Post-if true x y h k = h refl
  Post-if false x y h k = k refl
