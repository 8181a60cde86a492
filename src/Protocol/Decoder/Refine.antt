-- ===== src/Protocol/Decoder/Refine.antt =====
-- The decoder implements the machine: they stay in step, and what the decoder returns and writes
-- is what the machine says.
use native.Mathlib.Decide.{dec_lt}
use mathlib.Core.Path.{subst}
use sharak.Prelude.{
  ap, Ptr, ℤ, refl, ℕ, ◌≤◌, ◌≡◌, sym, ◌∙◌, arith, List, [], ◌∷◌, ◌++◌, some, bind_some, length,
  IsU8, le→ltb, lt→ltb, ◌==◌, ==_iff, if◌then◌else◌, u8, bit_xor, Bool, true, false, Bool-cases,
  inl, inr,
}
use sharak.Protocol.Decoder.Machine.{
  message, step-flag, Machine, hunting, collecting, verdict, event, step, more,
}
use sharak.Protocol.Decoder.Accumulate.{Simulates, accumulate_room, accumulate_full}
use sharak.Protocol.Wire.{payload_max, frame_inner, flag, esc_byte, esc_xor}
use sharak.Protocol.Decoder.{Decoder, at_flag, collect, sk_decoder_feed, sk_decoder_init}
use sharak.Protocol.Decoder.Verdict.{code, written}
use sharak.Protocol.Decoder.Finish.{decoder_finish_lem}
use sharak.Protocol.Decoder.Answer.{HasRoom, answer, answer_room}
use sharak.Protocol.Decoder.Accept.{verdict-message_iff}

-- A decoder that was initialised, over an accumulator with any content, is hunting.
pub init-Simulates :
    (st : Decoder)
    → length st.buf ≡ frame_inner
    → (st' : Decoder) × (sk_decoder_init (some st) ≡ some st') × Simulates st' hunting
unfolding sk_decoder_init
init-Simulates st h =
    (record st { in_frame = 0; esc = 0; overflow = 0; count = 0 }, refl, (refl, h))

-- The byte that ESC stands before.
unescaped-IsU8 :
    (esc : Bool) (byte : ℕ) → IsU8 byte → IsU8 (if esc then u8 (bit_xor byte esc_xor) else byte)
unescaped-IsU8 true byte h = omega arith
unescaped-IsU8 false byte h = h

esc_test :
    (e : ℕ) (esc : Bool) (x y : ℕ)
    → e ≡ (if esc then 1 else 0)
    → (if e == 0 then y else x) ≡ (if esc then x else y)
esc_test e true x y h = rw h
esc_test e false x y h = rw h

collect_refines :
    (st : Decoder) (esc : Bool) (bs : List ℕ) (byte : ℕ)
    → Simulates st (collecting esc bs)
    → IsU8 byte
    → let b = if esc then u8 (bit_xor byte esc_xor) else byte in
      (st' : Decoder) × (collect st byte ≡ some st')
      × Simulates st' (collecting false (bs ++ (b ∷ [])))
unfolding collect
collect_refines st esc bs byte (hf, he, ho, hc, hl, ht, hb) hbyte =
    let b = if esc then u8 (bit_xor byte esc_xor) else byte in
    let ub = unescaped-IsU8 esc byte hbyte in
    rw (esc_test st.esc esc (u8 (bit_xor byte esc_xor)) byte he)
      (elim (dec_lt (length bs) frame_inner) [
        | yes room ↦
            accumulate_room st.in_frame st.esc st.overflow st.count st.buf bs b room hf
              (ho ∙ rw (le→ltb 18 (length bs) (omega arith))) (omega arith) hl ht hb ub
        | no full ↦
            accumulate_full st.in_frame st.esc st.overflow st.count st.buf bs b (omega arith) hf
              (omega arith) hl ht hb ub
      ])

-- At a flag.
at_flag_refines :
    (st : Decoder) (m : Machine) (out : Ptr (List ℕ)) (cap : ℕ)
    → Simulates st m
    → HasRoom out cap
    → at_flag st out cap ≡ some (answer (event m flag) out cap)
unfolding at_flag event verdict answer
at_flag_refines st hunting out cap (hf, hl) room = rw hf
at_flag_refines st (collecting esc []) out cap (hf, he, ho, hc, hl, ht, hb) room = rw (hf, hc)
at_flag_refines st (collecting esc (b ∷ bs)) out cap (hf, he, ho, hc, hl, ht, hb) room =
    rw (hf, lt→ltb 0 st.count (omega arith))
      (decoder_finish_lem st.in_frame st.esc st.overflow st.count st.buf (b ∷ bs) out cap ho hc ht
        hb (omega arith) room)

-- One byte against the machine.
abbrev Feeds : Decoder → Machine → ℕ → Ptr (List ℕ) → ℕ → Type 0
Feeds st m byte out cap =
    let (r, out') = answer (event m byte) out cap in
    (st' : Decoder) × (sk_decoder_feed (some st) byte out cap ≡ some (r, some st', out'))
    × Simulates st' (step m byte)

feed_flag :
    (st : Decoder) (m : Machine) (out : Ptr (List ℕ)) (cap : ℕ)
    → Simulates st m
    → HasRoom out cap
    → Feeds st m flag out cap
unfolding sk_decoder_feed
feed_flag st m out cap sim room = (
  opened,
  bind_some _ (at_flag_refines st m out cap sim room) refl,
  rw step-flag (refl, refl, refl, refl, kept m sim, refl, tt),
)
  where
    opened : Decoder
    opened = record st { in_frame = 1; esc = 0; overflow = 0; count = 0 }

    kept : (m : Machine) → Simulates st m → length st.buf ≡ frame_inner
    kept hunting (hf, hl) = hl
    kept (collecting esc bs) (hf, he, ho, hc, hl, ht, hb) = hl

feed_other :
    (st : Decoder) (m : Machine) (byte : ℕ) (out : Ptr (List ℕ)) (cap : ℕ)
    → Simulates st m
    → IsU8 byte
    → (byte == flag) ≡ false
    → Feeds st m byte out cap
unfolding sk_decoder_feed event step answer
feed_other st hunting byte out cap (hf, hl) hbyte ne = rw ne (st, rw hf, (hf, hl))
feed_other st (collecting esc bs) byte out cap (hf, he, ho, hc, hl, ht, hb) hbyte ne =
    let open_frame : (st.in_frame == 0) ≡ false = rw hf in
    rw (ne, open_frame)
      (elim (Bool-cases (byte == esc_byte)) [
        | inl e ↦ rw e (record st { esc = 1 }, refl, (hf, refl, ho, hc, hl, ht, hb))
        | inr n ↦
            let (st', run, sim) =
              collect_refines st esc bs byte (hf, he, ho, hc, hl, ht, hb) hbyte in
            rw n (st', bind_some _ run refl, sim)
      ])

-- One byte, with any output: `sk_decoder_feed` makes no access out of range and stays in step with
-- the machine. It returns the code of the machine's event and leaves the output alone, unless the
-- event is a message: then it writes the message to the front of the output and returns its length,
-- or, with a NULL output or with less room than the message takes, refuses it with SK_DEC_ERR_LEN
-- and leaves the output alone. The machine has no event for a bad escape, nor for garbage between
-- frames, so the decoder reports neither, where REQ-PR-006 asks for an error code.
pub sk_decoder_feed-Simulates :
    (st : Decoder) (m : Machine) (byte : ℕ) (out : Ptr (List ℕ)) (cap : ℕ)
    → Simulates st m
    → IsU8 byte
    → HasRoom out cap
    → let (r, out') = answer (event m byte) out cap in
      (st' : Decoder) × (sk_decoder_feed (some st) byte out cap ≡ some (r, some st', out'))
      × Simulates st' (step m byte)
sk_decoder_feed-Simulates st m byte out cap sim hbyte room = elim (Bool-cases (byte == flag)) [
  | inl e ↦
      subst (λ b. Feeds st m b out cap) (sym ((==_iff byte flag).0 e))
        (feed_flag st m out cap sim room)
  | inr n ↦ feed_other st m byte out cap sim hbyte n
]

-- A message that is delivered has at most 16 bytes.
pub event-fits :
    (st : Decoder) (m : Machine) (byte : ℕ) (ps : List ℕ)
    → Simulates st m
    → event m byte ≡ message ps
    → length ps ≤ payload_max
unfolding event
event-fits st hunting byte ps sim e = cc
event-fits st (collecting esc bs) byte ps (_, _, _, _, _, _, hb) e =
    elim (Bool-cases (byte == flag)) [
      | inl f ↦
          let closed : verdict bs ≡ message ps = rw f at e in
          ((verdict-message_iff bs ps hb).0 closed).1.1
      | inr n ↦ let none_yet : more ≡ message ps = rw n at e in cc
    ]

-- The same with an output that has room for the largest payload: every message is delivered.
pub sk_decoder_feed_refines :
    (st : Decoder) (m : Machine) (byte : ℕ) (out : List ℕ) (cap : ℕ)
    → Simulates st m
    → IsU8 byte
    → payload_max ≤ cap
    → cap ≤ length out
    → (st' : Decoder) × (sk_decoder_feed (some st) byte (some out) cap
        ≡ some (code (event m byte), some st', some (written (event m byte) out)))
      × Simulates st' (step m byte)
sk_decoder_feed_refines st m byte out cap sim hbyte room len =
    let (st', run, sim') = sk_decoder_feed-Simulates st m byte (some out) cap sim hbyte len in
    let ans = answer_room (event m byte) out cap (λ ps e. event-fits st m byte ps sim e) room in
    (st', run ∙ ap (λ (a : ℤ × Ptr (List ℕ)). some (a.0, some st', a.1)) ans, sim')
