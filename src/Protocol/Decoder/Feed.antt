-- ===== src/Protocol/Decoder/Feed.antt =====
-- Feeding a stream to `sk_decoder_feed`, one byte at a time, into one output buffer.
use mathlib.Core.Path.{subst}
use sharak.Prelude.{
  ℕ, zero, suc, ◌≤◌, ◌≡◌, refl, ap, ap₂, ◌∙◌, arith, List, [], ◌∷◌, ◌++◌, some, ◌>>=◌, bind_some,
  Run, Ptr, ℤ, pos, length, length-append, length-drop, drop, take, replicate, All, IsU8, ◌-◌,
  length-take, All-take, take-append_self, false,
}
use sharak.Protocol.Decoder.Refine.{event-fits, init-Simulates, sk_decoder_feed_refines}
use sharak.Protocol.Wire.{payload_min, payload_max, frame_inner, dec_more, flag, frame_max}
use sharak.Protocol.Frame.{sk_frame_encode}
use sharak.Protocol.Frame.Stuff.{stuff, frame, sealed, frame-IsU8, length-frame}
use sharak.Protocol.Frame.Encode.{sk_frame_encode_ok, frame_bounds}
use sharak.Protocol.Decoder.{Decoder, sk_decoder_feed, sk_decoder_init}
use sharak.Protocol.Decoder.Machine.{
  Machine, hunting, collecting, Event, more, message, err_len, err_crc, err_oflow, event, step,
  events, after,
}
use sharak.Protocol.Decoder.Verdict.{code, written}
use sharak.Protocol.Decoder.Accumulate.{Simulates}
use sharak.Protocol.Decoder.Stream.{IsMessage, events-frame}

-- The return value of each call, with the output as that call leaves it; the decoder behind them.
unfoldable pub feed_all :
    Ptr Decoder → List ℕ → Ptr (List ℕ) → ℕ → Run (List (ℤ × Ptr (List ℕ)) × Ptr Decoder)
unfolding sk_decoder_feed
feed_all st [] out cap = some ([], st)
feed_all st (b ∷ bs) out cap = do
  (r, st', out') ← sk_decoder_feed st b out cap
  (rs, end) ← feed_all st' bs out' cap
  some ((r, out') ∷ rs, end)

-- The same of a list of events.
unfoldable pub trace : List Event → List ℕ → List (ℤ × Ptr (List ℕ))
unfolding code written
trace [] out = []
trace (e ∷ es) out = (code e, some (written e out)) ∷ trace es (written e out)

written-length :
    (e : Event) (out : List ℕ) (n : ℕ)
    → ((ps : List ℕ) → e ≡ message ps → length ps ≤ n)
    → n ≤ length out
    → length (written e out) ≡ length out
unfolding written
written-length more out n h k = refl
written-length err_len out n h k = refl
written-length err_crc out n h k = refl
written-length err_oflow out n h k = refl
written-length (message ps) out n h k =
    omega (arith, h ps refl, length-append ps (drop (length ps) out), length-drop (length ps) out)

-- The whole stream: the calls return the codes of the machine's events in order.
pub feed_all_refines :
    (st : Decoder) (m : Machine) (bytes out : List ℕ) (cap : ℕ)
    → Simulates st m
    → All IsU8 bytes
    → payload_max ≤ cap
    → cap ≤ length out
    → (st' : Decoder) × (feed_all (some st) bytes (some out) cap
        ≡ some (trace (events m bytes) out, some st'))
      × Simulates st' (after m bytes)
unfolding feed_all trace events after
feed_all_refines st m [] out cap sim hb room len = (st, refl, sim)
feed_all_refines st m (b ∷ bs) out cap sim (h, hb) room len =
    let (st1, one, sim1) = sk_decoder_feed_refines st m b out cap sim h room len in
    let kept =
      written-length (event m b) out payload_max (λ ps e. event-fits st m b ps sim e)
        (omega arith) in
    let (st2, rest, sim2) =
      feed_all_refines st1 (step m b) bs (written (event m b) out) cap sim1 hb room
        (omega (arith, kept)) in
    (st2, bind_some _ one (bind_some _ rest refl), sim2)

pub trace-cons :
    (e : Event) (es : List Event) (out : List ℕ)
    → trace (e ∷ es) out ≡ (code e, some (written e out)) ∷ trace es (written e out)
unfolding trace
trace-cons e es out = refl

trace_quiet :
    (n : ℕ) (ps out : List ℕ)
    → trace (replicate n more ++ (message ps ∷ [])) out
      ≡ replicate n (dec_more, some out)
        ++ ((pos (length ps), some (ps ++ drop (length ps) out)) ∷ [])
unfolding trace code written
trace_quiet zero ps out = refl
trace_quiet (suc n) ps out = ap (λ t. (dec_more, some out) ∷ t) (trace_quiet n ps out)

-- Whatever the decoder has been fed before: while it is fed the frame of a message of 6 to 16
-- bytes, only the opening flag can report what came before; the bytes up to the closing flag are
-- answered with SK_DEC_MORE and leave the output alone, and the closing flag returns the message's
-- length and puts the message at the front of the output. The decoder is ready for the next frame.
pub frame_received :
    (st : Decoder) (m : Machine) (msg out : List ℕ) (cap : ℕ)
    → Simulates st m
    → IsMessage msg
    → All IsU8 msg
    → payload_max ≤ cap
    → cap ≤ length out
    → let opening = event m flag in
      let out1 = written opening out in
      (st' : Decoder) × (feed_all (some st) (frame msg) (some out) cap
        ≡ some (
          (code opening, some out1)
              ∷ (replicate (length (stuff (sealed msg))) (dec_more, some out1)
                  ++ ((pos (length msg), some (msg ++ drop (length msg) out1)) ∷ [])),
          some st',
        ))
      × Simulates st' (collecting false [])
frame_received st m msg out cap sim size bytes room len =
    let (st', run, sim') =
      feed_all_refines st m (frame msg) out cap sim (frame-IsU8 msg bytes) room len in
    let (evs, end) = events-frame m msg size in
    let opening = event m flag in
    (
      st',
      run
          ∙ ap (λ t. some (t, some st'))
              (ap (λ es. trace es out) evs
                ∙ (trace-cons opening
                      (replicate (length (stuff (sealed msg))) more ++ (message msg ∷ [])) out
                    ∙ ap (λ t. (code opening, some (written opening out)) ∷ t)
                        (trace_quiet (length (stuff (sealed msg))) msg (written opening out)))),
      subst (Simulates st') end sim',
    )

-- Encoder to decoder: with buffers of the sizes that the header asks for, the encoder makes a
-- frame of every message of 6 to 16 bytes, and a decoder that was initialised and is fed the
-- frame, byte by byte, gives the same message back at the last byte and nothing before it.
pub encode_decode_roundtrip :
    (payload : List ℕ) (plen : ℕ) (buf : List ℕ) (cap : ℕ) (st : Decoder) (out : List ℕ)
    (out_cap : ℕ)
    → plen ≤ length payload
    → payload_min ≤ plen
    → plen ≤ payload_max
    → All IsU8 payload
    → frame_max ≤ cap
    → cap ≤ length buf
    → length st.buf ≡ frame_inner
    → payload_max ≤ out_cap
    → out_cap ≤ length out
    → (n : ℕ) × (sent : List ℕ) × (fresh : Decoder) × (st' : Decoder) × (sk_frame_encode
          (some payload)
          plen
          (some buf)
          cap
        ≡ some (pos n, some sent))
      × (sk_decoder_init (some st) ≡ some fresh)
      × (feed_all (some fresh) (take n sent) (some out) out_cap
          ≡ some (
            replicate (n - 1) (dec_more, some out)
                ++ ((pos plen, some (take plen payload ++ drop plen out)) ∷ []),
            some st',
          ))
encode_decode_roundtrip payload plen buf cap st out out_cap fits lo hi bytes room len acc oroom
      olen =
    let msg = take plen payload in
    let size : length msg ≡ plen = omega (arith, length-take plen payload) in
    let is_msg : IsMessage msg = (omega (arith, size), omega (arith, size)) in
    let bound = frame_bounds msg is_msg.0 is_msg.1 in
    let (fresh, init, sim) = init-Simulates st acc in
    let (st', run, _) =
      frame_received fresh hunting msg out out_cap sim is_msg (All-take IsU8 plen payload bytes)
        oroom olen in
    let k = length (stuff (sealed msg)) in
    let count : suc k ≡ length (frame msg) - 1 = omega (arith, length-frame msg) in
    (
      length (frame msg),
      frame msg ++ drop (length (frame msg)) buf,
      fresh,
      st',
      sk_frame_encode_ok payload plen buf cap fits lo hi len (omega (arith, bound)),
      init,
      ap (λ t. feed_all (some fresh) t (some out) out_cap)
            (take-append_self (frame msg) (drop (length (frame msg)) buf))
          ∙ (run
              ∙ unfold event code written in
                (ap₂
                  (λ (j l : ℕ). some (
                    replicate j (dec_more, some out) ++ ((pos l, some (msg ++ drop l out)) ∷ []),
                    some st',
                  ))
                  count size)),
    )
