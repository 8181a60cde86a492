-- ===== src/Protocol/Decoder/Damaged.antt =====
-- What the decoder answers to a frame whose bytes are judged as a checksum error.
use sharak.Prelude.{
  ℕ, zero, suc, ◌≤◌, ◌≡◌, refl, ap, ◌∙◌, List, [], ◌∷◌, ◌++◌, some, length, replicate, All, false,
}
use sharak.Protocol.Wire.{payload_max, dec_more, dec_err_crc, flag}
use sharak.Protocol.Decoder.{Decoder}
use sharak.Protocol.Decoder.Machine.{collecting, more, err_crc, verdict}
use sharak.Protocol.Decoder.Verdict.{code, written}
use sharak.Protocol.Decoder.Accumulate.{Simulates}
use sharak.Protocol.Decoder.Feed.{feed_all, trace}
use sharak.Protocol.Decoder.Unstuff.{IsInside, unstuff, feed-unstuff}

trace_refused :
    (n : ℕ) (out : List ℕ)
    → trace (replicate n more ++ (err_crc ∷ [])) out
      ≡ replicate n (dec_more, some out) ++ ((dec_err_crc, some out) ∷ [])
unfolding trace code written
trace_refused zero out = refl
trace_refused (suc n) out = ap (λ t. (dec_more, some out) ∷ t) (trace_refused n out)

-- Received bytes that are judged as a checksum error, whatever they are.
pub feed-err_crc :
    (st : Decoder) (wire out : List ℕ) (cap : ℕ)
    → Simulates st (collecting false [])
    → All IsInside wire
    → verdict (unstuff false wire) ≡ err_crc
    → payload_max ≤ cap
    → cap ≤ length out
    → (st' : Decoder) × (feed_all (some st) (wire ++ (flag ∷ [])) (some out) cap
        ≡ some (
          replicate (length wire) (dec_more, some out) ++ ((dec_err_crc, some out) ∷ []),
          some st',
        ))
feed-err_crc st wire out cap sim inside judged room len =
    let (st', run) = feed-unstuff st wire out cap sim inside room len in
    (
      st',
      run
          ∙ ap (λ t. some (t, some st'))
              (ap (λ e. trace (replicate (length wire) more ++ (e ∷ [])) out) judged
                ∙ trace_refused (length wire) out),
    )
