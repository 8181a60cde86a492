-- ===== src/Protocol/Frame/Encode.antt =====
-- The encoder against the wire format: total, correct, and never past the capacity.
use native.Mathlib.Decide.{dec_lt, dec_le}
use sharak.Prelude.{
  inl, inr, ℕ, zero, suc, ◌+◌, ◌≤◌, ◌<◌, ◌≡◌, refl, ap, sym, ◌∙◌, arith, List, [], ◌∷◌, ◌++◌, map,
  length, length-append, length-take, length-drop, take, drop, drop-drop, none, some, ◌>>=◌,
  bind_some, Locals, store, pos, negsuc, Ptr, replicate, le→ltb, lt→ltb, ap₂, ◌⊎◌,
}
use sharak.Protocol.Frame.Inner.{length-sealed, fill_inner}
use sharak.Protocol.Wire.{payload_min, payload_max, crc_len, frame_inner, frame_max, flag}
use sharak.Protocol.Frame.{stuff_loop, encode_frame, sk_frame_encode, finish}
use sharak.Protocol.Frame.Stuff.{stuff, frame, sealed, length-stuff, length-frame}
use sharak.Protocol.Frame.Loops.{store_next, stuff_loop_ok, stuff_loop_full}

-- The part behind it, with the opening flag written: the tests, the stuffing loop and the closing
-- flag, for an array that holds the message and its checksum.
close_ok :
    (cap len : ℕ) (bs : List ℕ) (junk : Locals) (o : ℕ) (out : List ℕ)
    → len ≡ length (sealed bs)
    → length (frame bs) ≤ cap
    → cap ≤ length out + 1
    → (do
      opened ← store (o ∷ out) 0 flag
      (r, stuffed) ← stuff_loop cap (map some (sealed bs) ++ junk) len 0 1 opened
      finish cap r stuffed)
      ≡ some (pos (length (frame bs)), some (frame bs ++ drop (length (frame bs)) (o ∷ out)))
unfolding frame finish
close_ok cap len bs junk o out e enough room =
    let l = length (stuff (sealed bs)) in
    let total = length-append (stuff (sealed bs)) (flag ∷ []) in
    rw e (
      bind_some _
        (stuff_loop_ok cap [] (sealed bs) junk 0 1 (flag ∷ []) out refl refl (omega (arith, total))
          (omega arith))
        (rw (le→ltb cap (1 + l + 1) (omega (arith, total))) (
          bind_some _
            (store_next (flag ∷ stuff (sealed bs)) (drop l out) (1 + l) flag (omega arith)
              (omega (arith, total, length-drop l out)))
            (ap₂ (λ (n : ℕ) (t : List ℕ). some (pos n, some (frame bs ++ t))) (omega (arith, total))
              (drop-drop 1 l out ∙ ap (λ (k : ℕ). drop k out) (sym total))))))

close_full :
    (cap len : ℕ) (bs : List ℕ) (junk : Locals) (o : ℕ) (out : List ℕ)
    → len ≡ length (sealed bs)
    → 1 ≤ cap
    → cap < length (frame bs)
    → cap ≤ length out + 1
    → (out' : List ℕ) × ((do
      opened ← store (o ∷ out) 0 flag
      (r, stuffed) ← stuff_loop cap (map some (sealed bs) ++ junk) len 0 1 opened
      finish cap r stuffed)
        ≡ some (negsuc 0, some out'))
      × (length out' ≡ length out + 1)
unfolding finish
close_full cap len bs junk o out e some_room over room =
    let l = length (stuff (sealed bs)) in
    elim (dec_le (1 + l) cap) [
      | yes p ↦ (
        flag ∷ (stuff (sealed bs) ++ drop l out),
        rw e (
            bind_some _
              (stuff_loop_ok cap [] (sealed bs) junk 0 1 (flag ∷ []) out refl refl p (omega arith))
              (rw (lt→ltb cap (1 + l + 1) (omega (arith, length-frame bs))))),
        omega (arith, length-append (stuff (sealed bs)) (drop l out), length-drop l out),
      )
      | no q ↦
          let (out', run, len') =
            stuff_loop_full cap [] (sealed bs) junk 0 1 (flag ∷ []) out refl refl some_room
              (omega arith) (omega arith) in
          (out', rw e (bind_some _ run refl), omega (arith, len'))
    ]

-- With a message of 6 to 16 bytes and room for its frame, the encoder writes the frame at the
-- start of the output, leaves what lies behind it, and returns its length.
pub sk_frame_encode_ok :
    (payload : List ℕ) (plen : ℕ) (out : List ℕ) (cap : ℕ)
    → plen ≤ length payload
    → payload_min ≤ plen
    → plen ≤ payload_max
    → cap ≤ length out
    → length (frame (take plen payload)) ≤ cap
    → let f = frame (take plen payload) in
      sk_frame_encode (some payload) plen (some out) cap
      ≡ some (pos (length f), some (f ++ drop (length f) out))
unfolding sk_frame_encode encode_frame
sk_frame_encode_ok payload plen [] cap fits lo hi room enough =
    absurd (omega (arith, length-frame (take plen payload)))
sk_frame_encode_ok payload plen (o ∷ out) cap fits lo hi room enough =
    rw (le→ltb plen 6 lo, le→ltb 16 plen hi)
      (fill_inner payload plen (replicate frame_inner none) _ fits (omega arith)
        ∙ rw (le→ltb cap 1 (omega (arith, length-frame (take plen payload)))) (
            close_ok cap (plen + crc_len) (take plen payload) _ o out
              (omega (arith, length-sealed (take plen payload), length-take plen payload)) enough
              (omega arith)))

-- With less room it returns -1; it writes nothing outside the output, which keeps its length.
pub sk_frame_encode_full :
    (payload : List ℕ) (plen : ℕ) (out : List ℕ) (cap : ℕ)
    → plen ≤ length payload
    → payload_min ≤ plen
    → plen ≤ payload_max
    → cap ≤ length out
    → cap < length (frame (take plen payload))
    → (out' : List ℕ) × (sk_frame_encode (some payload) plen (some out) cap
        ≡ some (negsuc 0, some out'))
      × (length out' ≡ length out)
unfolding sk_frame_encode encode_frame
sk_frame_encode_full payload plen out zero fits lo hi room over = (
  out,
  rw (le→ltb plen 6 lo, le→ltb 16 plen hi)
      (fill_inner payload plen (replicate frame_inner none) (λ _. some (negsuc 0, some out)) fits
        (omega arith)),
  refl,
)
sk_frame_encode_full payload plen [] (suc cap) fits lo hi room over = absurd (omega arith)
sk_frame_encode_full payload plen (o ∷ out) (suc cap) fits lo hi room over =
    let (out', run, len) =
      close_full (suc cap) (plen + crc_len) (take plen payload)
        (drop 2 (drop plen (replicate frame_inner none))) o out
        (omega (arith, length-sealed (take plen payload), length-take plen payload)) (omega arith)
        over (omega arith) in
    (
      out',
      rw (le→ltb plen 6 lo, le→ltb 16 plen hi)
          (fill_inner payload plen (replicate frame_inner none) _ fits (omega arith)
            ∙ rw (le→ltb (suc cap) 1 (omega arith)) run),
      omega (arith, len),
    )

-- The frame of a message of 6 to 16 bytes has between 10 and 38 bytes.
pub frame_bounds :
    (bs : List ℕ)
    → payload_min ≤ length bs
    → length bs ≤ payload_max
    → (payload_min + crc_len + 2 ≤ length (frame bs)) × (length (frame bs) ≤ frame_max)
frame_bounds bs lo hi = omega (arith, length-frame bs, length-stuff (sealed bs), length-sealed bs)

-- A NULL pointer, or a message shorter than 6 or longer than 16 bytes, is refused with -1 and
-- the output left as it was.
pub sk_frame_encode_refuses :
    (payload : Ptr (List ℕ)) (plen : ℕ) (out : Ptr (List ℕ)) (cap : ℕ)
    → ((payload ≡ none) ⊎ (out ≡ none)) ⊎ ((plen < payload_min) ⊎ (payload_max < plen))
    → sk_frame_encode payload plen out cap ≡ some (negsuc 0, out)
unfolding sk_frame_encode
sk_frame_encode_refuses none plen out cap h = refl
sk_frame_encode_refuses (some payload) plen none cap h = refl
sk_frame_encode_refuses (some payload) plen (some out) cap h = ground arith

-- With room for SK_FRAME_MAX bytes the encoder never refuses a message of 6 to 16 bytes, and the
-- frame has between 10 and 38 bytes.
pub sk_frame_encode_fits :
    (payload : List ℕ) (plen : ℕ) (out : List ℕ) (cap : ℕ)
    → plen ≤ length payload
    → payload_min ≤ plen
    → plen ≤ payload_max
    → frame_max ≤ cap
    → cap ≤ length out
    → (n : ℕ) × (sent : List ℕ) × (sk_frame_encode (some payload) plen (some out) cap
        ≡ some (pos n, some sent))
      × (10 ≤ n)
      × (n ≤ frame_max)
sk_frame_encode_fits payload plen out cap fits lo hi room len =
    let msg = take plen payload in
    let size : length msg ≡ plen = omega (arith, length-take plen payload) in
    let bound = frame_bounds msg (omega (arith, size)) (omega (arith, size)) in
    (
      length (frame msg),
      frame msg ++ drop (length (frame msg)) out,
      sk_frame_encode_ok payload plen out cap fits lo hi len (omega (arith, bound)),
      omega (arith, bound),
      bound.1,
    )

-- Every outcome of the encoder, with arrays that have the stated sizes: it accepts a message of 6 to
-- 16 bytes whose frame fits the capacity, writes that frame to the front of the output, leaves the
-- rest of it, and returns the frame's length. If the message is shorter or longer, or the frame does
-- not fit, it returns -1 and writes nothing outside the output, which keeps its length.
pub sk_frame_encode_outcomes :
    (payload : List ℕ) (plen : ℕ) (out : List ℕ) (cap : ℕ)
    → plen ≤ length payload
    → cap ≤ length out
    → let f = frame (take plen payload) in
      let run = sk_frame_encode (some payload) plen (some out) cap in
      ((payload_min ≤ plen)
        × (plen ≤ payload_max)
        × (length f ≤ cap)
        × (run ≡ some (pos (length f), some (f ++ drop (length f) out))))
      ⊎ (((plen < payload_min) ⊎ ((payload_max < plen) ⊎ (cap < length f)))
          × ((out' : List ℕ) × (run ≡ some (negsuc 0, some out')) × (length out' ≡ length out)))
sk_frame_encode_outcomes payload plen out cap fits room = elim (dec_lt plen payload_min) [
  | yes short ↦ inr (
    inl short,
    (out, sk_frame_encode_refuses (some payload) plen (some out) cap (inr (inl short)), refl),
  )
  | no lo ↦ elim (dec_lt payload_max plen) [
    | yes long ↦ inr (
      inr (inl long),
      (out, sk_frame_encode_refuses (some payload) plen (some out) cap (inr (inr long)), refl),
    )
    | no hi ↦ elim (dec_lt cap (length (frame (take plen payload)))) [
      | yes over ↦ inr (
        inr (inr over),
        sk_frame_encode_full payload plen out cap fits (omega arith) (omega arith) room over,
      )
      | no enough ↦ inl (
        omega arith,
        omega arith,
        omega arith,
        sk_frame_encode_ok payload plen out cap fits (omega arith) (omega arith) room (omega arith),
      )
    ]
  ]
]
