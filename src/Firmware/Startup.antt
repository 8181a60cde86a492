-- ===== src/Firmware/Startup.antt =====
-- The boot of firmware/startup.c: the vector table, and the reset handler over the memory's words.
pub mod Sections
mod Tests
use sharak.Prelude.{
  ℕ, zero, suc, ◌+◌, ◌==◌, List, [], ◌∷◌, Run, none, some, ◌>>=◌, if◌then◌else◌, ltb,
}

-- The entries of `g_vectors`.
pub data Vector : Type 0 where
  stack_top : Vector
  reset_handler_entry : Vector
  default_handler_entry : Vector
  reserved : Vector

abbrev pub g_vectors : List Vector
g_vectors =
    stack_top ∷ reset_handler_entry ∷ default_handler_entry ∷ default_handler_entry
    ∷ default_handler_entry ∷ default_handler_entry ∷ default_handler_entry ∷ reserved ∷ reserved
    ∷ reserved ∷ reserved ∷ default_handler_entry ∷ default_handler_entry ∷ reserved
    ∷ default_handler_entry ∷ default_handler_entry ∷ []

-- The word at each address.
abbrev pub Memory : Type 0
Memory = ℕ → ℕ

-- `*p = v`
abbrev pub store_word : Memory → ℕ → ℕ → Memory
store_word m p v = λ a. if a == p then v else m a

-- The addresses that the linker script provides.
pub record Linker : Type 0 where
  pub sidata : ℕ
  pub sdata : ℕ
  pub edata : ℕ
  pub sbss : ℕ
  pub ebss : ℕ

-- `while (dst < end) *dst++ = *src++`, for less than `fuel` rounds; a pointer to a word steps by 4.
pub copy_words : (fuel : ℕ) → ℕ → ℕ → ℕ → Memory → Run Memory
copy_words zero src dst end m = none
copy_words (suc fuel) src dst end m =
    let rest = copy_words fuel (src + 4) (dst + 4) end (store_word m dst (m src)) in
    if ltb dst end then rest else some m

-- `while (b < end) *b++ = 0`
pub zero_words : (fuel : ℕ) → ℕ → ℕ → Memory → Run Memory
zero_words zero b end m = none
zero_words (suc fuel) b end m =
    let rest = zero_words fuel (b + 4) end (store_word m b 0) in if ltb b end then rest else some m

-- What `main` makes of the memory that it finds; the trap behind it has no result of its own.
pub reset_handler : {A : Type 0} → Linker → (main : Memory → Run A) → (fuel : ℕ) → Memory → Run A
unfolding copy_words zero_words
reset_handler at main fuel m = do
  m1 ← copy_words fuel at.sidata at.sdata at.edata m
  m2 ← zero_words fuel at.sbss at.ebss m1
  main m2
