-- ===== src/Protocol/Decoder/Received.antt =====
-- What a caller of `sk_decoder_feed` collects from a stream: the first `n` bytes of the output
-- after every call that returns a positive `n`.
use sharak.Prelude.{
  ℕ, suc, ◌≤◌, ◌≡◌, refl, ap, ap₂, sym, ◌∙◌, arith, List, [], ◌∷◌, ◌++◌, some, Ptr, ℤ, pos, length,
  drop, take, All, All-append, IsU8, take-append_self, ◌==◌, if◌then◌else◌, Bool-cases, inl, inr,
  Bool, true, false, u8, bit_xor,
}
use sharak.Protocol.Frame.Stuff.{frame, frame-IsU8}
use sharak.Protocol.Wire.{payload_max, flag, esc_xor, esc_byte}
use sharak.Protocol.Decoder.{Decoder}
use sharak.Protocol.Decoder.Machine.{
  Machine, hunting, collecting, Event, more, message, err_len, err_crc, err_oflow, verdict, event,
  step, events,
}
use sharak.Protocol.Decoder.Verdict.{code, written}
use sharak.Protocol.Decoder.Accumulate.{Simulates}
use sharak.Protocol.Decoder.Stream.{IsMessage, delivered, frames, events-cons, delivered-append}
use sharak.Protocol.Decoder.Resync.{resynchronises}
use sharak.Protocol.Decoder.Accept.{verdict-message_iff}
use sharak.Protocol.Decoder.Feed.{feed_all, trace, feed_all_refines, trace-cons}

-- The payload that one answer hands over, if it does.
abbrev pub payload_of : ℤ → Ptr (List ℕ) → List (List ℕ)
payload_of (pos (suc n)) (some out) = take (suc n) out ∷ []
payload_of _ _ = []

abbrev pub received : List (ℤ × Ptr (List ℕ)) → List (List ℕ)
received [] = []
received ((r, out) ∷ rs) = payload_of r out ++ received rs

-- What the machine has collected are bytes.
abbrev Bytes : Machine → Type 0
Bytes hunting = Unit
Bytes (collecting esc bs) = All IsU8 bs

Simulates-Bytes : (st : Decoder) (m : Machine) → Simulates st m → Bytes m
Simulates-Bytes st hunting sim = tt
Simulates-Bytes st (collecting esc bs) (_, _, _, _, _, _, hb) = hb

step-Bytes : (m : Machine) (b : ℕ) → IsU8 b → Bytes m → Bytes (step m b)
unfolding step
step-Bytes hunting b h k = elim (Bool-cases (b == flag)) [ inl e ↦ rw e tt | inr e ↦ rw e tt ]
step-Bytes (collecting esc bs) b h k = elim (Bool-cases (b == flag)) [
  | inl e ↦ rw e tt
  | inr e ↦ rw e (elim (Bool-cases (b == esc_byte)) [
    | inl f ↦ rw f k
    | inr f ↦ rw f (All-append IsU8 bs _ k (unescaped esc, tt))
  ])
]
  where
    unescaped : (e : Bool) → IsU8 (if e then u8 (bit_xor b esc_xor) else b)
    unescaped true = omega arith
    unescaped false = h

event-IsMessage :
    (m : Machine) (b : ℕ) (ps : List ℕ) → Bytes m → event m b ≡ message ps → IsMessage ps
unfolding event
event-IsMessage hunting b ps k e = cc
event-IsMessage (collecting esc bs) b ps k e = elim (Bool-cases (b == flag)) [
  | inl f ↦
      let closed : verdict bs ≡ message ps = rw f at e in ((verdict-message_iff bs ps k).0 closed).1
  | inr n ↦ let none_yet : more ≡ message ps = rw n at e in cc
]

received-event :
    (e : Event) (out : List ℕ)
    → ((ps : List ℕ) → e ≡ message ps → IsMessage ps)
    → payload_of (code e) (some (written e out)) ≡ delivered (e ∷ [])
unfolding code written delivered
received-event more out h = refl
received-event err_len out h = refl
received-event err_crc out h = refl
received-event err_oflow out h = refl
received-event (message []) out h = absurd (omega (arith, (h [] refl).0))
received-event (message (p ∷ ps)) out h =
    ap (λ t. (p ∷ t) ∷ []) (take-append_self ps (drop (length (p ∷ ps)) out))

pub received-trace :
    (m : Machine) (bs out : List ℕ)
    → Bytes m
    → All IsU8 bs
    → received (trace (events m bs) out) ≡ delivered (events m bs)
received-trace m [] out k hb = unfold events trace delivered in refl
received-trace m (b ∷ bs) out k (h, hb) =
    let e = event m b in
    let out' = written e out in
    let first = received-event e out (λ ps same. event-IsMessage m b ps k same) in
    let rest = received-trace (step m b) bs out' (step-Bytes m b h k) hb in
    ap (λ es. received (trace es out)) (events-cons m b bs)
    ∙ (ap received (trace-cons e (events (step m b) bs) out)
        ∙ (ap₂ (λ x y. x ++ y) first rest
            ∙ (sym (delivered-append (e ∷ []) (events (step m b) bs))
                ∙ ap delivered (sym (events-cons m b bs)))))

pub frames-IsU8 : (ps : List (List ℕ)) → All (All IsU8) ps → All IsU8 (frames ps)
unfolding frames
frames-IsU8 [] h = tt
frames-IsU8 (p ∷ ps) (hp, h) =
    All-append IsU8 (frame p) (frames ps) (frame-IsU8 p hp) (frames-IsU8 ps h)

frames-cons : (p : List ℕ) (ps : List (List ℕ)) → frames (p ∷ ps) ≡ frame p ++ frames ps
unfolding frames
frames-cons p ps = refl

pub flag-IsU8 : All IsU8 (flag ∷ [])
flag-IsU8 = (omega arith, tt)

-- Resynchronisation. Whatever state the decoder is in and whatever bytes come first: it makes no
-- access out of range, and of the frames that follow it hands every message over, in order and
-- once; what it hands over before them comes from the earlier bytes, at the latest at the flag
-- that opens the first frame.
pub stream_received :
    (st : Decoder) (m : Machine) (noise : List ℕ) (p : List ℕ) (ps : List (List ℕ)) (out : List ℕ)
    (cap : ℕ)
    → Simulates st m
    → All IsU8 noise
    → All IsMessage (p ∷ ps)
    → All (All IsU8) (p ∷ ps)
    → payload_max ≤ cap
    → cap ≤ length out
    → let earlier = noise ++ (flag ∷ []) in
      (st' : Decoder) × (rs : List (ℤ × Ptr (List ℕ))) × (before : List (ℤ × Ptr (List ℕ)))
      × (st1 : Decoder) × (feed_all (some st) (noise ++ frames (p ∷ ps)) (some out) cap
          ≡ some (rs, some st'))
      × (feed_all (some st) earlier (some out) cap ≡ some (before, some st1))
      × (received rs ≡ received before ++ (p ∷ ps))
stream_received st m noise p ps out cap sim hn (hp, hps) (bp, bps) room len =
    let bytes = noise ++ frames (p ∷ ps) in
    let earlier = noise ++ (flag ∷ []) in
    let all_bytes = All-append IsU8 noise _ hn (frames-IsU8 (p ∷ ps) (bp, bps)) in
    let early_bytes = All-append IsU8 noise _ hn flag-IsU8 in
    let clean = Simulates-Bytes st m sim in
    let (st', run, _) = feed_all_refines st m bytes out cap sim all_bytes room len in
    let (st1, run1, _) = feed_all_refines st m earlier out cap sim early_bytes room len in
    (
      st',
      trace (events m bytes) out,
      trace (events m earlier) out,
      st1,
      run,
      run1,
      received-trace m bytes out clean all_bytes
          ∙ (ap (λ t. delivered (events m (noise ++ t))) (frames-cons p ps)
              ∙ resynchronises m noise p ps hp hps
              ∙ ap (λ t. t ++ (p ∷ ps)) (sym (received-trace m earlier out clean early_bytes))),
    )
