-- ===== src/Protocol/Decoder/Answer.antt =====
-- What the caller of `sk_decoder_feed` gets for an event, whatever output it passes.
use sharak.Prelude.{
  ℕ, ◌≤◌, ◌≡◌, refl, arith, List, ◌++◌, ℤ, pos, Ptr, none, some, length, drop, ltb, le→ltb,
  if◌then◌else◌,
}
use sharak.Protocol.Wire.{payload_max, dec_more, dec_err_len, dec_err_crc, dec_err_oflow}
use sharak.Protocol.Decoder.Machine.{Event, more, message, err_len, err_crc, err_oflow}
use sharak.Protocol.Decoder.Verdict.{code, written}

-- The output may be NULL; otherwise it has the room that the caller states.
abbrev pub HasRoom : Ptr (List ℕ) → ℕ → Type 0
HasRoom none cap = Unit
HasRoom (some out) cap = cap ≤ length out

-- A message that finds no output, or too little room for it, is refused.
unfoldable pub answer : Event → Ptr (List ℕ) → ℕ → ℤ × Ptr (List ℕ)
answer more out cap = (dec_more, out)
answer err_len out cap = (dec_err_len, out)
answer err_crc out cap = (dec_err_crc, out)
answer err_oflow out cap = (dec_err_oflow, out)
answer (message ps) none cap = (dec_err_len, none)
answer (message ps) (some out) cap =
    if ltb cap (length ps)
    then (dec_err_len, some out)
    else (pos (length ps), some (ps ++ drop (length ps) out))

-- With room for every message that the event can be, it is the event's code and what it writes.
pub answer_room :
    (e : Event) (out : List ℕ) (cap : ℕ)
    → ((ps : List ℕ) → e ≡ message ps → length ps ≤ payload_max)
    → payload_max ≤ cap
    → answer e (some out) cap ≡ (code e, some (written e out))
unfolding answer code written
answer_room more out cap h k = refl
answer_room err_len out cap h k = refl
answer_room err_crc out cap h k = refl
answer_room err_oflow out cap h k = refl
answer_room (message ps) out cap h k =
    let small = h ps refl in rw (le→ltb cap (length ps) (omega arith))
