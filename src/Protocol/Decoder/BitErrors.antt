-- ===== src/Protocol/Decoder/BitErrors.antt =====
-- What the decoder makes of a frame in which some bits arrived wrong on the wire.
use sharak.Prelude.{
  ◌⊎◌, inl, inr, arith, length-append, sym, ◌∙◌, ap, ap₂, ◌%◌, ◌+◌, ℕ, ◌≤◌, ◌≡◌, ◌≢◌, refl, List,
  [], ◌∷◌, ◌++◌, some, length, replicate, All, IsU8, Bool, true, false, ◌==◌, ==_iff, Bool-cases,
  bit_xor, suc,
}
use mathlib.Core.Path.{subst}
use sharak.Prelude.Bits.{bit_xor_self, bit_xor_assoc, bit_xor_comm, bit_xor-zero}
use sharak.Protocol.Wire.{payload_max, flag, esc_byte, esc_xor, dec_more, dec_err_crc}
use sharak.Protocol.Crc.Parity.{ones, flips, crc_detects_odd}
use sharak.Protocol.Crc.Linear.{crc_detects_two}
use sharak.Protocol.Crc.Fold.{crc_of}
use sharak.Protocol.Frame.Stuff.{trailer, stuff, sealed, sealed-IsU8, stuff-IsU8}
use sharak.Protocol.Decoder.{Decoder}
use sharak.Protocol.Decoder.Machine.{collecting}
use sharak.Protocol.Decoder.Accumulate.{Simulates}
use sharak.Protocol.Decoder.Stream.{IsMessage}
use sharak.Protocol.Decoder.Accept.{verdict_residue}
use sharak.Protocol.Decoder.Feed.{feed_all}
use sharak.Protocol.Decoder.Unstuff.{
  unescaped_behind_escape, unstuff-stuff, IsInside, IsInside-IsU8, unescaped, unstuff, unstuff-IsU8,
}
use sharak.Protocol.Decoder.Damaged.{feed-err_crc}

-- As many bytes are received as were sent, and an escape exactly where one was sent.
abbrev pub KeepsEscapes : List ℕ → List ℕ → Type 0
KeepsEscapes [] [] = Unit
KeepsEscapes [] (y ∷ ys) = ⊥
KeepsEscapes (x ∷ xs) [] = ⊥
KeepsEscapes (x ∷ xs) (y ∷ ys) = ((x == esc_byte) ≡ (y == esc_byte)) × KeepsEscapes xs ys

-- The XOR behind an escape changes no difference.
bit_xor_cancel : (x y c : ℕ) → bit_xor (bit_xor x c) (bit_xor y c) ≡ bit_xor x y
bit_xor_cancel x y c =
    bit_xor_assoc x c (bit_xor y c)
    ∙ ap (bit_xor x) (
        ap (bit_xor c) (bit_xor_comm y c)
        ∙ (sym (bit_xor_assoc c c y)
            ∙ (ap (λ (t : ℕ). bit_xor t y) (bit_xor_self c) ∙ (bit_xor_comm 0 y ∙ bit_xor-zero y))))

bit_xor-unescaped :
    (esc : Bool) (x y : ℕ)
    → IsU8 x
    → IsU8 y
    → bit_xor (unescaped esc x) (unescaped esc y) ≡ bit_xor x y
bit_xor-unescaped true x y hx hy =
    ap₂ bit_xor (unescaped_behind_escape x hx) (unescaped_behind_escape y hy)
    ∙ bit_xor_cancel x y esc_xor
bit_xor-unescaped false x y hx hy = refl

ones-zero : ones 8 0 ≡ 0
unfolding ones
ones-zero = refl

-- Taking the escapes off keeps the number of wrong bits.
unstuff-flips :
    (xs ys : List ℕ) (esc : Bool)
    → KeepsEscapes xs ys
    → All IsU8 xs
    → All IsU8 ys
    → (length (unstuff esc ys) ≡ length (unstuff esc xs))
      × (flips (unstuff esc xs) (unstuff esc ys) ≡ flips xs ys)
unfolding unstuff flips
unstuff-flips [] [] esc keeps hx hy = (refl, refl)
unstuff-flips [] (y ∷ ys) esc keeps hx hy = absurd keeps
unstuff-flips (x ∷ xs) [] esc keeps hx hy = absurd keeps
unstuff-flips (x ∷ xs) (y ∷ ys) esc (same, keeps) (hx, hxs) (hy, hys) =
    elim (Bool-cases (x == esc_byte)) [
      | inl e ↦
          let (size, count) = unstuff-flips xs ys true keeps hxs hys in
          let at_y : (y == esc_byte) ≡ true = sym same ∙ e in
          let equal : x ≡ y = (==_iff x esc_byte).0 e ∙ sym ((==_iff y esc_byte).0 at_y) in
          let none_here : ones 8 (bit_xor x y) ≡ 0 =
            ap (λ (t : ℕ). ones 8 (bit_xor x t)) (sym equal)
            ∙ ap (ones 8) (bit_xor_self x)
            ∙ ones-zero in
          rw (e, at_y) (size, omega (arith, count, none_here))
      | inr e ↦
          let (size, count) = unstuff-flips xs ys false keeps hxs hys in
          let at_y : (y == esc_byte) ≡ false = sym same ∙ e in
          rw (e, at_y)
            (
              ap suc size,
              ap₂ (λ (m n : ℕ). m + n) (ap (ones 8) (bit_xor-unescaped esc x y hx hy)) count,
            )
    ]

flips-residue :
    (msg bad : List ℕ)
    → IsMessage msg
    → All IsU8 msg
    → length bad ≡ length (sealed msg)
    → All IsU8 bad
    → (flips (sealed msg) bad % 2 ≡ 1) ⊎ (flips (sealed msg) bad ≡ 2)
    → crc_of (sealed msg) ≢ crc_of bad
flips-residue msg bad size bytes same bad_bytes (inl odd) =
    crc_detects_odd (sealed msg) bad (sym same) (sealed-IsU8 msg bytes) bad_bytes odd
flips-residue msg bad size bytes same bad_bytes (inr two) =
    crc_detects_two (sealed msg) bad (sym same)
      (omega (arith, size.1, length-append msg (trailer msg))) (sealed-IsU8 msg bytes) bad_bytes two

-- A message is stuffed and sent, and `wire` is what a decoder at the start of the frame receives
-- between the flags: as many bytes, no flag among them, and an escape exactly where one was sent. If it
-- differs from what was sent in two bits or in an odd number of bits, wherever they are, then each of
-- these bytes is answered with SK_DEC_MORE, the closing flag with SK_DEC_ERR_CRC, and the output is
-- left as it was. Errors that make or destroy a flag or an escape are not covered.
pub bit_errors_refused :
    (st : Decoder) (msg wire out : List ℕ) (cap : ℕ)
    → Simulates st (collecting false [])
    → IsMessage msg
    → All IsU8 msg
    → KeepsEscapes (stuff (sealed msg)) wire
    → All IsInside wire
    → (flips (stuff (sealed msg)) wire % 2 ≡ 1) ⊎ (flips (stuff (sealed msg)) wire ≡ 2)
    → payload_max ≤ cap
    → cap ≤ length out
    → (st' : Decoder) × (feed_all (some st) (wire ++ (flag ∷ [])) (some out) cap
        ≡ some (
          replicate (length wire) (dec_more, some out) ++ ((dec_err_crc, some out) ∷ []),
          some st',
        ))
bit_errors_refused st msg wire out cap sim size bytes keeps inside wrong room len =
    let sent = stuff (sealed msg) in
    let bad = unstuff false wire in
    let back = unstuff-stuff (sealed msg) in
    let bad_bytes = unstuff-IsU8 false wire inside in
    let (long, count) =
      unstuff-flips sent wire false keeps (stuff-IsU8 (sealed msg) (sealed-IsU8 msg bytes))
        (IsInside-IsU8 wire inside) in
    let same : length bad ≡ length (sealed msg) = long ∙ ap length back in
    let as_sent : flips sent wire ≡ flips (sealed msg) bad =
      sym count ∙ ap (λ t. flips t bad) back in
    let differs = subst (λ (n : ℕ). (n % 2 ≡ 1) ⊎ (n ≡ 2)) as_sent wrong in
    feed-err_crc st wire out cap sim inside
      (verdict_residue msg bad size same bad_bytes
        (flips-residue msg bad size bytes same bad_bytes differs))
      room len
