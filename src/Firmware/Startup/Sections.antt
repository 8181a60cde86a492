-- ===== src/Firmware/Startup/Sections.antt =====
-- What the memory holds when `main` starts.
use sharak.Prelude.{
  ℕ, zero, suc, ◌+◌, ◌*◌, ◌≤◌, ◌<◌, ◌≡◌, ◌≢◌, ◌⊎◌, inl, inr, refl, ap, ◌∙◌, arith, Run, some,
  bind_some, ltb, true, false,
}
use sharak.Firmware.Startup.{Memory, store_word, Linker, copy_words, zero_words, reset_handler}

store_here : (m : Memory) (p v : ℕ) → store_word m p v p ≡ v
store_here m p v = ground arith

store_elsewhere : (m : Memory) (p v a : ℕ) → a ≢ p → store_word m p v a ≡ m a
store_elsewhere m p v a ne = ground arith

-- An address that is not one of the `n` words from `p` on.
abbrev pub Outside : ℕ → ℕ → ℕ → Type 0
Outside p n a = (a < p) ⊎ (p + 4 * n ≤ a)

-- The same addresses are outside what is left behind the first word, and are not its own.
Outside-tail : (p n a : ℕ) → Outside p (suc n) a → Outside (p + 4) n a × (a ≢ p)
Outside-tail p n a (inl h) = (inl (omega arith), λ e. absurd (omega arith))
Outside-tail p n a (inr h) = (inr (omega arith), λ e. absurd (omega arith))

kept_words :
    (m m' : Memory) (p v n : ℕ)
    → ((a : ℕ) → Outside (p + 4) n a → m' a ≡ store_word m p v a)
    → (a : ℕ) → Outside p (suc n) a
    → m' a ≡ m a
kept_words m m' p v n kept a out =
    let (beyond, ne) = Outside-tail p n a out in kept a beyond ∙ store_elsewhere m p v a ne

copied_words :
    (m m' : Memory) (src dst n : ℕ)
    → src + 4 * suc n ≤ dst
    → ((i : ℕ) → i < n → m' (dst + 4 + 4 * i) ≡ store_word m dst (m src) (src + 4 + 4 * i))
    → m' dst ≡ m src
    → (i : ℕ) → i < suc n
    → m' (dst + 4 * i) ≡ m (src + 4 * i)
copied_words m m' src dst n apart copied first zero h =
    let at : dst + 4 * 0 ≡ dst = omega arith in
    let from : src ≡ src + 4 * 0 = omega arith in ap m' at ∙ (first ∙ ap m from)
copied_words m m' src dst n apart copied first (suc i) h =
    let at : dst + 4 * suc i ≡ dst + 4 + 4 * i = omega arith in
    let from : src + 4 + 4 * i ≡ src + 4 * suc i = omega arith in
    ap m' at
    ∙ (copied i (omega arith)
        ∙ (store_elsewhere m dst (m src) (src + 4 + 4 * i) (λ e. absurd (omega arith)) ∙ ap m from))

zeroed_words :
    (m' : Memory) (b n : ℕ)
    → ((i : ℕ) → i < n → m' (b + 4 + 4 * i) ≡ 0)
    → m' b ≡ 0
    → (i : ℕ) → i < suc n
    → m' (b + 4 * i) ≡ 0
zeroed_words m' b n zeroed first zero h = let at : b + 4 * 0 ≡ b = omega arith in ap m' at ∙ first
zeroed_words m' b n zeroed first (suc i) h =
    let at : b + 4 * suc i ≡ b + 4 + 4 * i = omega arith in ap m' at ∙ zeroed i (omega arith)

-- `n` words from a source that ends before the destination begins.
copy_words-copies :
    (n fuel src dst end : ℕ) (m : Memory)
    → end ≡ dst + 4 * n
    → src + 4 * n ≤ dst
    → n < fuel
    → (m' : Memory) × (copy_words fuel src dst end m ≡ some m')
      × ((i : ℕ) → i < n → m' (dst + 4 * i) ≡ m (src + 4 * i))
      × ((a : ℕ) → Outside dst n a → m' a ≡ m a)
unfolding copy_words
copy_words-copies n zero src dst end m ends apart enough = absurd (omega arith)
copy_words-copies zero (suc fuel) src dst end m ends apart enough =
    let over : ltb dst end ≡ false = ground arith in
    (m, rw over refl, λ i h. absurd (omega arith), λ a h. refl)
copy_words-copies (suc n) (suc fuel) src dst end m ends apart enough =
    let on : ltb dst end ≡ true = ground arith in
    let m1 = store_word m dst (m src) in
    let (m', run, copied, kept) =
      copy_words-copies n fuel (src + 4) (dst + 4) end m1 (omega arith) (omega arith)
        (omega arith) in
    (
      m',
      rw on run,
      copied_words m m' src dst n apart copied
          (kept dst (inl (omega arith)) ∙ store_here m dst (m src)),
      kept_words m m' dst (m src) n kept,
    )

zero_words-zeroes :
    (n fuel b end : ℕ) (m : Memory)
    → end ≡ b + 4 * n
    → n < fuel
    → (m' : Memory) × (zero_words fuel b end m ≡ some m')
      × ((i : ℕ) → i < n → m' (b + 4 * i) ≡ 0)
      × ((a : ℕ) → Outside b n a → m' a ≡ m a)
unfolding zero_words
zero_words-zeroes n zero b end m ends enough = absurd (omega arith)
zero_words-zeroes zero (suc fuel) b end m ends enough =
    let over : ltb b end ≡ false = ground arith in
    (m, rw over refl, λ i h. absurd (omega arith), λ a h. refl)
zero_words-zeroes (suc n) (suc fuel) b end m ends enough =
    let on : ltb b end ≡ true = ground arith in
    let (m', run, zeroed, kept) =
      zero_words-zeroes n fuel (b + 4) end (store_word m b 0) (omega arith) (omega arith) in
    (
      m',
      rw on run,
      zeroed_words m' b n zeroed (kept b (inl (omega arith)) ∙ store_here m b 0),
      kept_words m m' b 0 n kept,
    )

-- With sections of whole words, `.data` of `n` and `.bss` of `k`, laid out as the linker script does,
-- the load image in front of `.data` and `.bss` behind it: whatever the memory held, the reset handler
-- ends its loops within more than `n` and `k` rounds and starts `main` on a memory in which each word
-- of `.data` has the value of its load image, each word of `.bss` is zero, and every other address is
-- as it was.
pub reset_handler-sections :
    {A : Type 0} (at : Linker) (main : Memory → Run A) (n k fuel : ℕ) (m : Memory)
    → at.edata ≡ at.sdata + 4 * n
    → at.ebss ≡ at.sbss + 4 * k
    → at.sidata + 4 * n ≤ at.sdata
    → at.edata ≤ at.sbss
    → n < fuel
    → k < fuel
    → (m' : Memory) × (reset_handler at main fuel m ≡ main m')
      × ((i : ℕ) → i < n → m' (at.sdata + 4 * i) ≡ m (at.sidata + 4 * i))
      × ((i : ℕ) → i < k → m' (at.sbss + 4 * i) ≡ 0)
      × ((a : ℕ) → Outside at.sdata n a → Outside at.sbss k a → m' a ≡ m a)
unfolding reset_handler
reset_handler-sections at main n k fuel m data_ends bss_ends image order enough_data enough_bss =
    let (m1, copies, copied, kept1) =
      copy_words-copies n fuel at.sidata at.sdata at.edata m data_ends image enough_data in
    let (m2, zeroes, zeroed, kept2) =
      zero_words-zeroes k fuel at.sbss at.ebss m1 bss_ends enough_bss in
    (
      m2,
      bind_some _ copies (bind_some _ zeroes refl),
      λ i h. kept2 (at.sdata + 4 * i) (inl (omega arith)) ∙ copied i h,
      zeroed,
      λ a out_data out_bss. kept2 a out_bss ∙ kept1 a out_data,
    )
