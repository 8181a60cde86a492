-- ===== src/Protocol/Decoder/Finish.antt =====
-- `decoder_finish` against the verdict of the machine.
use native.Mathlib.Decide.{dec_lt}
use native.Mathlib.Numerals.{add-one}
use mathlib.Core.Path.{subst}
use sharak.Prelude.{
  none, refl, Ptr, ℕ, zero, suc, ◌+◌, ◌-◌, ◌*◌, ◌^◌, ◌≤◌, ◌<◌, ◌≡◌, ap, ap₂, sym, ◌∙◌, arith, min,
  List, [], ◌∷◌, ◌++◌, append_assoc, pos, some, ◌>>=◌, bind_some, length, length-append,
  length-take, length-drop, take, drop, drop-drop, split_at, last_two, take_all, take-append-drop,
  take-append_self, All, All-append_iff, get_elem?-append_self, get_elem?-append_right, IsU8, ltb,
  le→ltb, lt→ltb, ◌==◌, if◌then◌else◌, u16, ◌<<<◌, bit_or, Bool-cases, inl, inr, load,
}
use sharak.Prelude.Bits.{bit_or_high}
use sharak.Protocol.Wire.{frame_inner, dec_err_crc}
use sharak.Protocol.Crc.{crc16_ccitt_false}
use sharak.Protocol.Crc.Fold.{crc_of, crc16-crc_of}
use sharak.Protocol.Frame.Loops.{store_next}
use sharak.Protocol.Decoder.{deliver_loop, deliver, decoder_finish}
use sharak.Protocol.Decoder.Answer.{HasRoom, answer}
use sharak.Protocol.Decoder.Machine.{err_crc, message, verdict}
use sharak.Protocol.Decoder.Verdict.{verdict_oflow, verdict_short, verdict_checked}

deliver_loop_lem :
    (buf : List ℕ) (left i : ℕ) (rest : List ℕ)
    → i + left ≤ length buf
    → left ≤ length rest
    → deliver_loop buf left i (take i buf ++ rest) ≡ some (take (i + left) buf ++ drop left rest)
unfolding deliver_loop
deliver_loop_lem buf zero i rest h k = ap (λ (t : ℕ). some (take t buf ++ rest)) (omega arith)
deliver_loop_lem buf (suc left) i rest h k =
    let (b, read, _, taken) = split_at i buf (omega arith) in
    let more : take (i + 1) buf ≡ take i buf ++ (b ∷ []) =
      ap (λ (t : ℕ). take t buf) (add-one i) ∙ taken in
    bind_some _ read (
      bind_some _
        (store_next (take i buf) rest i b (omega (arith, length-take i buf)) (omega arith))
        (rw (← more) (
          deliver_loop_lem buf left (i + 1) (drop 1 rest) (omega arith)
            (omega (arith, length-drop 1 rest))
          ∙ ap₂ (λ (t : ℕ) (u : List ℕ). some (take t buf ++ u)) (omega arith)
              (drop-drop left 1 rest ∙ ap (λ (t : ℕ). drop t rest) {y = suc left} (omega arith)))))

-- Delivery of a message that is in the accumulator.
deliver_lem :
    (ps junk : List ℕ) (out : Ptr (List ℕ)) (cap : ℕ)
    → HasRoom out cap
    → deliver (ps ++ junk) (length ps) out cap ≡ some (answer (message ps) out cap)
unfolding deliver answer
deliver_lem ps junk none cap room = refl
deliver_lem ps junk (some out) cap room =
    let n = length ps in
    let buf = ps ++ junk in
    elim (dec_lt cap n) [
      | yes short ↦ rw (lt→ltb cap n short)
      | no fits ↦ rw (le→ltb cap n (omega arith)) (
          bind_some _
            (deliver_loop_lem buf n 0 out (omega (arith, length-append ps junk)) (omega arith))
            (ap (λ (t : List ℕ). some (pos n, some (t ++ drop n out)))
              (ap (λ (t : ℕ). take t buf) {y = n} (omega arith) ∙ take-append_self ps junk)))
    ]

-- The checked end of `decoder_finish`, on an accumulator that holds a message and two more bytes.
checked :
    (ps : List ℕ) (hi lo : ℕ) (junk : List ℕ) (out : Ptr (List ℕ)) (cap : ℕ)
    → IsU8 hi
    → IsU8 lo
    → HasRoom out cap
    → let buf = ps ++ (hi ∷ lo ∷ junk) in
      let n = length ps in
      let e = if crc_of ps == hi * 2 ^ 8 + lo then message ps else err_crc in
      (do
        crc ← crc16_ccitt_false (some buf) n
        h ← load buf n
        l ← load buf (n + 1)
        if crc == u16 (bit_or (h <<< 8) l) then deliver buf n out cap else some (dec_err_crc, out))
      ≡ some (answer e out cap)
unfolding answer
checked ps hi lo junk out cap hh hl room =
    let buf = ps ++ (hi ∷ lo ∷ junk) in
    let n = length ps in
    let total = length-append ps (hi ∷ lo ∷ junk) in
    bind_some _ (crc16-crc_of buf n (omega (arith, total))) (
      bind_some _ (get_elem?-append_self ps hi (lo ∷ junk)) (
        bind_some _ (get_elem?-append_right ps (hi ∷ lo ∷ junk) 1) (
          rw (take-append_self ps (hi ∷ lo ∷ junk), word)
            (elim (Bool-cases (crc_of ps == hi * 2 ^ 8 + lo)) [
              | inl good ↦ rw good (deliver_lem ps (hi ∷ lo ∷ junk) out cap room)
              | inr bad ↦ rw bad refl
            ]))))
  where
    word : u16 (bit_or (hi <<< 8) lo) ≡ hi * 2 ^ 8 + lo
    word = omega (arith, bit_or_high 8 hi lo hl)

-- An accumulator that holds a message and two more bytes.
finish_checked :
    (f e : ℕ) (ps : List ℕ) (hi lo : ℕ) (junk : List ℕ) (out : Ptr (List ℕ)) (cap : ℕ)
    → 6 ≤ length ps
    → length ps ≤ 16
    → IsU8 hi
    → IsU8 lo
    → HasRoom out cap
    → let v = verdict (ps ++ (hi ∷ lo ∷ [])) in
      decoder_finish
        (record {
          in_frame = f;
          esc = e;
          overflow = 0;
          count = length ps + 2;
          buf = ps ++ (hi ∷ lo ∷ junk);
        })
        out
        cap
      ≡ some (answer v out cap)
unfolding decoder_finish
finish_checked f e ps hi lo junk out cap h k u v room =
    let back : length ps + 2 - 2 ≡ length ps = omega arith in
    rw
      (
        verdict_checked ps hi lo h k u v,
        le→ltb 18 (length ps + 2) (omega arith),
        le→ltb (length ps + 2) 8 (omega arith),
        back,
      )
      (checked ps hi lo junk out cap u v room)

same_state :
    (f e : ℕ) {o o' c c' : ℕ} {b b' : List ℕ}
    → o ≡ o'
    → c ≡ c'
    → b ≡ b'
    → (out : Ptr (List ℕ)) (cap : ℕ)
    → decoder_finish (record { in_frame = f; esc = e; overflow = o; count = c; buf = b }) out cap
      ≡ decoder_finish
          (record { in_frame = f; esc = e; overflow = o'; count = c'; buf = b' })
          out
          cap
same_state f e p q r out cap = λ i.
    decoder_finish (record { in_frame = f; esc = e; overflow = p i; count = q i; buf = r i }) out
      cap

-- `decoder_finish` at the end of a frame that collected the bytes `bs`: the fields are as the
-- decoder keeps them, with the first 18 of the bytes in the accumulator.
pub decoder_finish_lem :
    (f e o c : ℕ) (buf bs : List ℕ) (out : Ptr (List ℕ)) (cap : ℕ)
    → o ≡ (if ltb frame_inner (length bs) then 1 else 0)
    → c ≡ min (length bs) frame_inner
    → take c buf ≡ take frame_inner bs
    → All IsU8 bs
    → 0 < length bs
    → HasRoom out cap
    → decoder_finish (record { in_frame = f; esc = e; overflow = o; count = c; buf = buf }) out cap
      ≡ some (answer (verdict bs) out cap)
unfolding decoder_finish answer
decoder_finish_lem f e o c buf bs out cap ho hc ht hb some_byte room =
    elim (dec_lt frame_inner (length bs)) [
      | yes over ↦ rw (verdict_oflow bs over, ho, lt→ltb 18 (length bs) over)
      | no fits ↦ elim (dec_lt (length bs) 8) [
        | yes short ↦
            let c' : c ≡ length bs = omega arith in
            rw (
              verdict_short bs some_byte short,
              ho,
              le→ltb 18 (length bs) (omega arith),
              c',
              le→ltb 18 (length bs) (omega arith),
              lt→ltb (length bs) 8 short,
            )
        | no long ↦
            let (ps, hi, lo, split) = last_two bs (omega arith) in
            let total = length-append ps (hi ∷ lo ∷ []) in
            let count : c ≡ length ps + 2 = omega (arith, total, ap length split) in
            let front : take c buf ≡ ps ++ (hi ∷ lo ∷ []) =
              ht ∙ (take_all frame_inner bs (omega arith) ∙ split) in
            let whole : buf ≡ ps ++ (hi ∷ lo ∷ drop c buf) =
              sym (take-append-drop c buf)
              ∙ (ap (λ (t : List ℕ). t ++ drop c buf) front
                  ∙ append_assoc ps (hi ∷ lo ∷ []) (drop c buf)) in
            let flagless : o ≡ 0 = ho ∙ rw (le→ltb 18 (length bs) (omega arith)) in
            let bytes = (All-append_iff IsU8 ps (hi ∷ lo ∷ []) (subst (All IsU8) split hb)).1 in
            same_state f e flagless count whole out cap
            ∙ (finish_checked f e ps hi lo (drop c buf) out cap
                  (omega (arith, total, ap length split)) (omega (arith, total, ap length split))
                  bytes.0 bytes.1.0 room
                ∙ ap (λ (t : List ℕ). some (answer (verdict t) out cap)) (sym split))
      ]
    ]
