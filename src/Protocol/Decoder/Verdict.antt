-- ===== src/Protocol/Decoder/Verdict.antt =====
-- Events as the return values and the output of `sk_decoder_feed`, and what the verdict of the
-- machine is on each length.
use sharak.Prelude.{
  ℕ, ◌+◌, ◌-◌, ◌*◌, ◌^◌, ◌≤◌, ◌<◌, ◌≡◌, ap, ap₂, ◌∙◌, arith, List, [], ◌∷◌, ◌++◌, ℤ, pos, length,
  length-append, take, drop, take-append_self, IsU8, le→ltb, lt→ltb, ◌==◌, ==_iff, if◌then◌else◌,
  Bool_ext, Bool,
}
use sharak.Protocol.Wire.{frame_inner, dec_more, dec_err_len, dec_err_crc, dec_err_oflow}
use sharak.Protocol.Crc.Fold.{crc_of}
use sharak.Protocol.Crc.Residue.{crc_residue}
use sharak.Protocol.Decoder.Machine.{
  Event, more, err_len, err_crc, err_oflow, message, verdict, is_residue,
}

-- An event as the return value of `sk_decoder_feed`, and what it does to the output.
unfoldable pub code : Event → ℤ
code more = dec_more
code err_len = dec_err_len
code err_crc = dec_err_crc
code err_oflow = dec_err_oflow
code (message bs) = pos (length bs)

unfoldable pub written : Event → List ℕ → List ℕ
written (message bs) out = bs ++ drop (length bs) out
written _ out = out

pub verdict_oflow : (bs : List ℕ) → frame_inner < length bs → verdict bs ≡ err_oflow
unfolding verdict
verdict_oflow [] h = absurd (omega arith)
verdict_oflow (b ∷ bs) h = rw (lt→ltb 18 (length (b ∷ bs)) h)

pub verdict_short : (bs : List ℕ) → 0 < length bs → length bs < 8 → verdict bs ≡ err_len
unfolding verdict
verdict_short [] h k = absurd (omega arith)
verdict_short (b ∷ bs) h k =
    rw (le→ltb 18 (length (b ∷ bs)) (omega arith), lt→ltb (length (b ∷ bs)) 8 k)

verdict_long :
    (bs : List ℕ)
    → 8 ≤ length bs
    → length bs ≤ 18
    → verdict bs ≡ (if is_residue bs then message (take (length bs - 2) bs) else err_crc)
unfolding verdict
verdict_long [] h k = absurd (omega arith)
verdict_long (b ∷ bs) h k = rw (le→ltb 18 (length (b ∷ bs)) k, le→ltb (length (b ∷ bs)) 8 h)

-- The zero residue is the comparison of the checksums.
is_residue_lem :
    (ps : List ℕ) (hi lo : ℕ)
    → IsU8 hi
    → IsU8 lo
    → is_residue (ps ++ (hi ∷ lo ∷ [])) ≡ (crc_of ps == hi * 2 ^ 8 + lo)
is_residue_lem ps hi lo u v =
    let r = crc_residue ps hi lo u v in
    Bool_ext _ _ (
      λ e.
          (==_iff (crc_of ps) (hi * 2 ^ 8 + lo)).1
            (r.0 ((==_iff (crc_of (ps ++ (hi ∷ lo ∷ []))) 0).0 e)),
      λ e.
          (==_iff (crc_of (ps ++ (hi ∷ lo ∷ []))) 0).1
            (r.1 ((==_iff (crc_of ps) (hi * 2 ^ 8 + lo)).0 e)),
    )

pub verdict_checked :
    (ps : List ℕ) (hi lo : ℕ)
    → 6 ≤ length ps
    → length ps ≤ 16
    → IsU8 hi
    → IsU8 lo
    → verdict (ps ++ (hi ∷ lo ∷ []))
      ≡ (if crc_of ps == hi * 2 ^ 8 + lo then message ps else err_crc)
verdict_checked ps hi lo h k u v =
    let bs = ps ++ (hi ∷ lo ∷ []) in
    let total = length-append ps (hi ∷ lo ∷ []) in
    verdict_long bs (omega (arith, total)) (omega (arith, total))
    ∙ ap₂ (λ (r : Bool) (t : List ℕ). if r then message t else err_crc)
        (is_residue_lem ps hi lo u v)
        (ap (λ (t : ℕ). take t bs) {y = length ps} (omega (arith, total))
          ∙ take-append_self ps (hi ∷ lo ∷ []))
