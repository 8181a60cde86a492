-- ===== src/Protocol/Frame.antt =====
-- `sk_frame_encode` of protocol/src/protocol.c. The payload and the output do not overlap.
pub mod Stuff
pub mod Loops
pub mod Inner
pub mod Encode
pub mod Whole
mod Tests
use sharak.Prelude.{
  ℕ, zero, suc, ◌+◌, List, ℤ, pos, negsuc, Ptr, Run, none, some, ◌>>=◌, ◌||◌, Option, Locals, load,
  load_local, store, ltb, ◌==◌, if◌then◌else◌, replicate, u8, ◌>>>◌, bit_and, bit_xor,
}
use sharak.Protocol.Wire.{payload_min, payload_max, crc_len, frame_inner, flag, esc_byte, esc_xor}
use sharak.Protocol.Crc.{crc16_ccitt_false}

-- `inner[i] = payload[i]`, at index `i` with `plen - i` rounds left.
pub copy_loop : List ℕ → ℕ → ℕ → Locals → Run Locals
copy_loop payload zero i inner = some inner
copy_loop payload (suc left) i inner = do
  b ← load payload i
  inner' ← store inner i (some b)
  copy_loop payload left (i + 1) inner'

-- The body of the stuffing loop: the new `n`, or `none` where it returns -1, and the output.
pub stuff_step : ℕ → ℕ → ℕ → List ℕ → Run (Option ℕ × List ℕ)
stuff_step cap b n out =
    if b == flag || b == esc_byte
    then (if ltb cap (n + 2) then some (none, out) else do
      o1 ← store out n esc_byte
      o2 ← store o1 (n + 1) (u8 (bit_xor b esc_xor))
      some (some (n + 2), o2))
    else (if ltb cap (n + 1)
        then some (none, out)
        else do o1 ← store out n b; some (some (n + 1), o1))

-- The stuffing loop at index `i`, with `inner_len - i` rounds left.
pub stuff_loop : ℕ → Locals → ℕ → ℕ → ℕ → List ℕ → Run (Option ℕ × List ℕ)
unfolding stuff_step
stuff_loop cap inner zero i n out = some (some n, out)
stuff_loop cap inner (suc left) i n out = do
  b ← load_local inner i
  (r, out') ← stuff_step cap b n out
  elim r [ none ↦ some (none, out') | some n' ↦ stuff_loop cap inner left (i + 1) n' out' ]

-- What follows the stuffing loop: its early return, or the closing flag at index `n`.
pub finish : ℕ → Option ℕ → List ℕ → Run (ℤ × Ptr (List ℕ))
finish cap none out = some (negsuc 0, some out)
finish cap (some n) out =
    if ltb cap (n + 1)
    then some (negsuc 0, some out)
    else do closed ← store out n flag; some (pos (n + 1), some closed)

-- The part behind the tests of the arguments: the return value, and the output as it is left.
pub encode_frame : List ℕ → ℕ → List ℕ → ℕ → Run (ℤ × Ptr (List ℕ))
unfolding copy_loop stuff_loop finish
encode_frame payload plen out cap = do
  copied ← copy_loop payload plen 0 (replicate frame_inner none)
  crc ← crc16_ccitt_false (some payload) plen
  with_hi ← store copied plen (some (u8 (bit_and (crc >>> 8) 0xff)))
  inner ← store with_hi (plen + 1) (some (u8 (bit_and crc 0xff)))
  if ltb cap 1 then some (negsuc 0, some out) else do
    opened ← store out 0 flag
    (r, stuffed) ← stuff_loop cap inner (plen + crc_len) 0 1 opened
    finish cap r stuffed

unfoldable pub sk_frame_encode : Ptr (List ℕ) → ℕ → Ptr (List ℕ) → ℕ → Run (ℤ × Ptr (List ℕ))
unfolding encode_frame crc16_ccitt_false
sk_frame_encode none plen out cap = some (negsuc 0, out)
sk_frame_encode (some payload) plen none cap = some (negsuc 0, none)
sk_frame_encode (some payload) plen (some out) cap =
    if ltb plen payload_min || ltb payload_max plen
    then some (negsuc 0, some out)
    else encode_frame payload plen out cap
