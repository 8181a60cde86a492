-- ===== src/Protocol/Decoder/Neighbours.antt =====
-- What the decoder makes of a frame of which one byte, or two neighbouring ones, arrived wrong on the
-- wire.
use mathlib.Core.Path.{subst}
use sharak.Prelude.{
  All-append, ℕ, ◌≤◌, ◌<◌, ◌≡◌, ◌≢◌, ◌⊎◌, refl, ap, sym, ◌∙◌, arith, List, [], ◌∷◌, ◌++◌,
  append_assoc, some, length, length-append, replicate, All, All-append_iff, IsU8, Bool, true,
  false, ◌==◌, ==_iff, Bool-cases, inl, inr, bit_xor,
}
use sharak.Prelude.Bits.{bit_xor_self, bit_xor_assoc, bit_xor-zero}
use sharak.Protocol.Wire.{payload_max, dec_more, dec_err_crc, flag, esc_byte, esc_xor}
use sharak.Protocol.Frame.Stuff.{stuff, sealed, trailer, sealed-IsU8}
use sharak.Protocol.Decoder.{Decoder}
use sharak.Protocol.Decoder.Machine.{collecting, err_crc, verdict}
use sharak.Protocol.Decoder.Accumulate.{Simulates}
use sharak.Protocol.Decoder.Stream.{IsMessage}
use sharak.Protocol.Decoder.Accept.{verdict_corrupted}
use sharak.Protocol.Decoder.Feed.{feed_all}
use sharak.Protocol.Decoder.Unstuff.{
  IsInside, unescaped, unescaped-IsU8, unescaped_behind_escape, unstuff, unstuff-IsU8,
  unstuff-append, unstuff-stuff, stuff-IsInside, ends,
}
use sharak.Protocol.Decoder.Damaged.{feed-err_crc}

last_one : (xs : List ℕ) → 0 < length xs → (front : List ℕ) × (c : ℕ) × (xs ≡ front ++ (c ∷ []))
last_one [] h = absurd (omega arith)
last_one (x ∷ []) h = ([], x, refl)
last_one (x ∷ y ∷ ys) h =
    let (front, c, e) = last_one (y ∷ ys) (omega arith) in (x ∷ front, c, ap (λ t. x ∷ t) e)

-- One wrong byte has a neighbour that is right, before it or behind it.
verdict_one_wrong :
    (msg pre post : List ℕ) (x x' : ℕ)
    → IsMessage msg
    → All IsU8 msg
    → All IsU8 (pre ++ (x' ∷ post))
    → sealed msg ≡ pre ++ (x ∷ post)
    → x ≢ x'
    → verdict (pre ++ (x' ∷ post)) ≡ err_crc
verdict_one_wrong msg pre (c ∷ post) x x' size hm hb sent wrong =
    let clean = (All-append_iff IsU8 pre (x' ∷ c ∷ post) hb).1 in
    verdict_corrupted msg pre post x c x' c size hm clean.0 clean.1.0 sent (inl wrong)
verdict_one_wrong msg pre [] x x' size hm hb sent wrong =
    let some_before : 0 < length pre =
      omega (arith, ap length sent, length-append pre (x ∷ []), length-append msg (trailer msg)) in
    let (front, c, split) = last_one pre some_before in
    let joined : (y : ℕ) → pre ++ (y ∷ []) ≡ front ++ (c ∷ y ∷ []) =
      λ y. ap (λ t. t ++ (y ∷ [])) split ∙ append_assoc front (c ∷ []) (y ∷ []) in
    let clean = (All-append_iff IsU8 front (c ∷ x' ∷ []) (subst (All IsU8) (joined x') hb)).1 in
    ap verdict (joined x')
    ∙ verdict_corrupted msg front [] c x c x' size hm clean.0 clean.1.0 (sent ∙ joined x)
        (inr wrong)

unescaped_twice : (x : ℕ) → IsU8 x → bit_xor (unescaped true x) esc_xor ≡ x
unescaped_twice x h =
    ap (λ (t : ℕ). bit_xor t esc_xor) (unescaped_behind_escape x h)
    ∙ (bit_xor_assoc x esc_xor esc_xor ∙ (ap (bit_xor x) (bit_xor_self esc_xor) ∙ bit_xor-zero x))

unescaped-injective :
    (esc : Bool) (x y : ℕ) → IsU8 x → IsU8 y → unescaped esc x ≡ unescaped esc y → x ≡ y
unescaped-injective true x y hx hy e =
    sym (unescaped_twice x hx) ∙ (ap (λ (t : ℕ). bit_xor t esc_xor) e ∙ unescaped_twice y hy)
unescaped-injective false x y hx hy e = e

unstuff-other :
    (esc : Bool) (b : ℕ) (bs : List ℕ)
    → (b == esc_byte) ≡ false
    → unstuff esc (b ∷ bs) ≡ unescaped esc b ∷ unstuff false bs
unfolding unstuff
unstuff-other esc b bs e = rw e refl

unstuff-escape :
    (esc : Bool) (b : ℕ) (bs : List ℕ)
    → (b == esc_byte) ≡ true
    → unstuff esc (b ∷ bs) ≡ unstuff true bs
unfolding unstuff
unstuff-escape esc b bs e = rw e refl

both_escapes : (x y : ℕ) → (x == esc_byte) ≡ true → (y == esc_byte) ≡ true → x ≡ y
both_escapes x y ex ey = (==_iff x esc_byte).0 ex ∙ sym ((==_iff y esc_byte).0 ey)

-- Two bytes of which the first, the second or none is an escape.
unstuff_escaped :
    (esc : Bool) (x y : ℕ) (post : List ℕ)
    → (x == esc_byte) ≡ true
    → (y == esc_byte) ≡ false
    → unstuff esc (x ∷ y ∷ post) ≡ unescaped true y ∷ unstuff false post
unstuff_escaped esc x y post ex ey =
    unstuff-escape esc x (y ∷ post) ex ∙ unstuff-other true y post ey

unstuff_before_escape :
    (esc : Bool) (x y : ℕ) (post : List ℕ)
    → (x == esc_byte) ≡ false
    → (y == esc_byte) ≡ true
    → unstuff esc (x ∷ y ∷ post) ≡ unescaped esc x ∷ unstuff true post
unstuff_before_escape esc x y post ex ey =
    unstuff-other esc x (y ∷ post) ex
    ∙ ap (λ t. unescaped esc x ∷ t) (unstuff-escape false y post ey)

unstuff_plain :
    (esc : Bool) (x y : ℕ) (post : List ℕ)
    → (x == esc_byte) ≡ false
    → (y == esc_byte) ≡ false
    → unstuff esc (x ∷ y ∷ post) ≡ unescaped esc x ∷ y ∷ unstuff false post
unstuff_plain esc x y post ex ey =
    unstuff-other esc x (y ∷ post) ex
    ∙ ap (λ t. unescaped esc x ∷ t) (unstuff-other false y post ey)

neither : {P Q : Type 0} → P → Q → (¬ P) ⊎ (¬ Q) → ⊥
neither x y (inl n) = n x
neither x y (inr n) = n y

module _ (msg front post : List ℕ) (esc : Bool) (a b a' b' : ℕ) (size : IsMessage msg)
    (hm : All IsU8 msg) (ha : IsU8 a) (hb : IsU8 b) (ha' : IsU8 a') (hb' : IsU8 b')
    (sent : sealed msg ≡ front ++ unstuff esc (a ∷ b ∷ post))
    (clean : All IsU8 (front ++ unstuff esc (a' ∷ b' ∷ post))) (wrong : (a ≢ a') ⊎ (b ≢ b')) where
  abbrev Refused : Type 0
  Refused = verdict (front ++ unstuff esc (a' ∷ b' ∷ post)) ≡ err_crc

  wrong_escaped :
      (a == esc_byte) ≡ true
      → (b == esc_byte) ≡ false
      → (a' == esc_byte) ≡ true
      → (b' == esc_byte) ≡ false
      → Refused
  wrong_escaped e f e' f' =
      let got = unstuff_escaped esc a' b' post e' f' in
      ap (λ t. verdict (front ++ t)) got
      ∙ verdict_one_wrong msg front (unstuff false post) (unescaped true b) (unescaped true b') size
          hm (subst (λ t. All IsU8 (front ++ t)) got clean)
          (sent ∙ ap (λ t. front ++ t) (unstuff_escaped esc a b post e f))
          (λ same.
            neither (both_escapes a a' e e') (unescaped-injective true b b' hb hb' same) wrong)

  wrong_before_escape :
      (a == esc_byte) ≡ false
      → (b == esc_byte) ≡ true
      → (a' == esc_byte) ≡ false
      → (b' == esc_byte) ≡ true
      → Refused
  wrong_before_escape e f e' f' =
      let got = unstuff_before_escape esc a' b' post e' f' in
      ap (λ t. verdict (front ++ t)) got
      ∙ verdict_one_wrong msg front (unstuff true post) (unescaped esc a) (unescaped esc a') size hm
          (subst (λ t. All IsU8 (front ++ t)) got clean)
          (sent ∙ ap (λ t. front ++ t) (unstuff_before_escape esc a b post e f))
          (λ same.
            neither (unescaped-injective esc a a' ha ha' same) (both_escapes b b' f f') wrong)

  wrong_plain :
      (a == esc_byte) ≡ false
      → (b == esc_byte) ≡ false
      → (a' == esc_byte) ≡ false
      → (b' == esc_byte) ≡ false
      → Refused
  wrong_plain e f e' f' =
      ap (λ t. verdict (front ++ t)) (unstuff_plain esc a' b' post e' f')
      ∙ verdict_corrupted msg front (unstuff false post) (unescaped esc a) b (unescaped esc a') b'
          size hm (unescaped-IsU8 esc a' ha') hb'
          (sent ∙ ap (λ t. front ++ t) (unstuff_plain esc a b post e f)) (apart wrong)
    where
      apart : (a ≢ a') ⊎ (b ≢ b') → (unescaped esc a ≢ unescaped esc a') ⊎ (b ≢ b')
      apart (inl n) = inl (λ same. n (unescaped-injective esc a a' ha ha' same))
      apart (inr n) = inr n

  -- What the wrong bytes stand for, behind `front`, is not what was sent.
  verdict_neighbours :
      (a == esc_byte) ≡ (a' == esc_byte) → (b == esc_byte) ≡ (b' == esc_byte) → Refused
  verdict_neighbours same_a same_b = elim (Bool-cases (a == esc_byte)) [
    | inl e ↦ elim (Bool-cases (b == esc_byte)) [
      | inl f ↦ absurd (
          neither (both_escapes a a' e (sym same_a ∙ e)) (both_escapes b b' f (sym same_b ∙ f))
            wrong)
      | inr f ↦ wrong_escaped e f (sym same_a ∙ e) (sym same_b ∙ f)
    ]
    | inr e ↦ elim (Bool-cases (b == esc_byte)) [
      | inl f ↦ wrong_before_escape e f (sym same_a ∙ e) (sym same_b ∙ f)
      | inr f ↦ wrong_plain e f (sym same_a ∙ e) (sym same_b ∙ f)
    ]
  ]

-- A message is stuffed and sent. Of the bytes between the flags one, or two neighbouring ones, arrive
-- wrong, but no flag is among what arrives, an escape arrives as an escape and no other byte as one.
-- Then a decoder at the start of the frame answers each of them with SK_DEC_MORE, the closing flag
-- with SK_DEC_ERR_CRC, and the output is left as it was. Errors that make or destroy a flag or an
-- escape are not covered.
pub neighbours_refused :
    (st : Decoder) (msg pre post : List ℕ) (a b a' b' : ℕ) (out : List ℕ) (cap : ℕ)
    → Simulates st (collecting false [])
    → IsMessage msg
    → All IsU8 msg
    → stuff (sealed msg) ≡ pre ++ (a ∷ b ∷ post)
    → IsInside a'
    → IsInside b'
    → (a == esc_byte) ≡ (a' == esc_byte)
    → (b == esc_byte) ≡ (b' == esc_byte)
    → (a ≢ a') ⊎ (b ≢ b')
    → payload_max ≤ cap
    → cap ≤ length out
    → let wire = pre ++ (a' ∷ b' ∷ post) in
      (st' : Decoder) × (feed_all (some st) (wire ++ (flag ∷ [])) (some out) cap
        ≡ some (
          replicate (length wire) (dec_more, some out) ++ ((dec_err_crc, some out) ∷ []),
          some st',
        ))
neighbours_refused st msg pre post a b a' b' out cap sim size bytes sent ina inb same_a same_b wrong
      room len =
    let wire = pre ++ (a' ∷ b' ∷ post) in
    let sent_inside =
      All-append_iff IsInside pre (a ∷ b ∷ post)
        (subst (All IsInside) sent (stuff-IsInside (sealed msg) (sealed-IsU8 msg bytes))) in
    let inside =
      All-append IsInside pre (a' ∷ b' ∷ post) sent_inside.0 (ina, (inb, sent_inside.1.1.1)) in
    let front = unstuff false pre in
    let esc = ends false pre in
    let got = unstuff-append pre (a' ∷ b' ∷ post) false in
    let meant : sealed msg ≡ front ++ unstuff esc (a ∷ b ∷ post) =
      sym (unstuff-stuff (sealed msg))
      ∙ (ap (unstuff false) sent ∙ unstuff-append pre (a ∷ b ∷ post) false) in
    feed-err_crc st wire out cap sim inside
      (ap verdict got
        ∙ verdict_neighbours msg front post esc a b a' b' size bytes sent_inside.1.0.0
            sent_inside.1.1.0.0 ina.0 inb.0 meant
            (subst (All IsU8) got (unstuff-IsU8 false wire inside)) wrong same_a same_b)
      room len
